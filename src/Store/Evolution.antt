-- ===== src/Store/Evolution.antt =====
-- What may become of the stored messages.
use reliable_messaging_syste.Prelude.{◌≡◌, ◌≢◌, ◌∙◌, true, Option, some, ℤ, leb_ℤ, arith}
use reliable_messaging_syste.Models.{ObjectId, Message, unsent}

-- The messages by their ids.
abbrev pub Docs : Type 0
Docs = ObjectId → Option Message

-- `n` is a later version of `m`: the id, the recipient, the text and the time of creation are the
-- same, the retry count has not fallen, and a message that was taken is not unsent again.
pub record IsLater (m n : Message) : Type 0 where
  pub same_id : n.id ≡ m.id
  pub same_to : n.to ≡ m.to
  pub same_content : n.content ≡ m.content
  pub same_created_at : n.created_at ≡ m.created_at
  pub retries_kept : leb_ℤ m.retry_count n.retry_count ≡ true
  pub taken_stays : m.status ≢ unsent → n.status ≢ unsent

-- No message is lost, and each is a later version of itself.
abbrev pub Evolves : Docs → Docs → Type 0
Evolves a b =
    (id : ObjectId) (m : Message) → a id ≡ some m → (n : Message) × (b id ≡ some n) × IsLater m n

leb_ℤ_refl : (i : ℤ) → leb_ℤ i i ≡ true
leb_ℤ_refl i = ground arith

leb_ℤ_trans : (i j k : ℤ) → leb_ℤ i j ≡ true → leb_ℤ j k ≡ true → leb_ℤ i k ≡ true
leb_ℤ_trans i j k h h' = ground arith

pub IsLater-refl : (m : Message) → IsLater m m
IsLater-refl m = ground (arith, leb_ℤ_refl m.retry_count)

pub IsLater-trans : (l m n : Message) → IsLater l m → IsLater m n → IsLater l n
IsLater-trans l m n h k = record {
  same_id = k.same_id ∙ h.same_id;
  same_to = k.same_to ∙ h.same_to;
  same_content = k.same_content ∙ h.same_content;
  same_created_at = k.same_created_at ∙ h.same_created_at;
  retries_kept =
      leb_ℤ_trans l.retry_count m.retry_count n.retry_count h.retries_kept k.retries_kept;
  taken_stays = λ taken. k.taken_stays (h.taken_stays taken);
}

pub Evolves-refl : (a : Docs) → Evolves a a
Evolves-refl a id m e = (m, e, IsLater-refl m)

pub Evolves-trans : (a b c : Docs) → Evolves a b → Evolves b c → Evolves a c
Evolves-trans a b c h k id m e =
    let (n, en, later) = h id m e in
    let (o, eo, later') = k id n en in (o, eo, IsLater-trans m n o later later')
