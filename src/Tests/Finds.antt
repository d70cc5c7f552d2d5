-- ===== src/Tests/Finds.antt =====
-- A collection whose listing finds look at the message with the id 1, and the theorems on finding
-- applied to it.
use reliable_messaging_syste.Prelude.{
  ℕ, zero, suc, ◌≤◌, ◌≡◌, refl, inl, inr, Bool, Bool-cases, true, false, ◌&&◌, Option, none, some,
  List, [], ◌∷◌, ℤ, pos, negsuc, ltb, ◌==◌, ==_iff, length, All, if◌then◌else◌, arith,
}
use reliable_messaging_syste.Effects.{ok, returns}
use reliable_messaging_syste.Models.{Message, MessageStatus, unsent, processing}
use reliable_messaging_syste.Store.Evolution.{Docs}
use reliable_messaging_syste.Adapters.Drivers.{Filter, status_is, updated_before, Collection}
use reliable_messaging_syste.Adapters.MessageRepository.{
  MongoMessageRepository, find_unsent_messages,
}
use reliable_messaging_syste.Adapters.MessageRepository.Finding.{
  Matches, WithinLimit, IsFound, FindLaws, find_unsent_messages-IsFound,
}
use reliable_messaging_syste.Tests.Simulation.{message_at}
use reliable_messaging_syste.Tests.Stores.{closed_breaker-BreakerLaws, same_docs, collection, mongo}

abbrev pub is_unsent : MessageStatus → Bool
is_unsent unsent = true
is_unsent _ = false

abbrev pub is_processing : MessageStatus → Bool
is_processing processing = true
is_processing _ = false

abbrev pub listed_if : (Message → Bool) → Option Message → List Message
listed_if p none = []
listed_if p (some m) = if p m && m.id == 1 then m ∷ [] else []

-- A cursor is 1 for the unsent messages, `at + 2` for the stale ones at this time, or 0.
abbrev pub cursor_of : Filter → ℕ
cursor_of (status_is unsent ∷ []) = 1
cursor_of (status_is processing ∷ updated_before at ∷ []) = suc (suc at)
cursor_of _ = 0

abbrev pub documents : ℕ → Docs → List Message
documents zero d = []
documents (suc zero) d = listed_if (λ m. is_unsent m.status) (d 1)
documents (suc (suc at)) d = listed_if (λ m. is_processing m.status && ltb m.updated_at at) (d 1)

abbrev pub finding : Collection Docs
finding = record collection {
  find = λ f limit d. (returns (ok (cursor_of f)), d);
  all = λ c d. (returns (ok (documents c d)), d);
}

listed_if-length : (p : Message → Bool) (o : Option Message) → length (listed_if p o) ≤ 1
listed_if-length p none = omega arith
listed_if-length p (some m) = ground arith

within_limit : (limit : Option ℤ) (n : ℕ) → n ≤ 1 → WithinLimit limit n
within_limit none n h = tt
within_limit (some (pos zero)) n h = tt
within_limit (some (pos (suc k))) n h = omega arith
within_limit (some (negsuc k)) n h = omega arith

is_unsent_lem : (st : MessageStatus) → is_unsent st ≡ true → st ≡ unsent
is_unsent_lem st h = ground arith

listed_if-IsFound :
    (f : Filter) (p : Message → Bool) (d : Docs) (o : Option Message)
    → d 1 ≡ o
    → ((m : Message) → p m ≡ true → Matches f m)
    → All (IsFound same_docs f d) (listed_if p o)
listed_if-IsFound f p d none e h = tt
listed_if-IsFound f p d (some m) e h = elim (Bool-cases (p m && m.id == 1)) [
  | inr no' ↦ rw no' tt
  | inl yes' ↦
      let passes : p m ≡ true = ground arith in
      let here : m.id ≡ 1 = ground (arith, ==_iff m.id 1) in
      rw yes' ((ground (arith, here), h m passes), tt)
]

documents-IsFound :
    (f : Filter) (limit : Option ℤ) (d : Docs)
    → All (IsFound same_docs f d) (documents (cursor_of f) d)
      × WithinLimit limit (length (documents (cursor_of f) d))
documents-IsFound (status_is unsent ∷ []) limit d = (
  listed_if-IsFound (status_is unsent ∷ []) (λ m. is_unsent m.status) d (d 1) refl
      (λ m h. (is_unsent_lem m.status h, tt)),
  within_limit limit _ (listed_if-length _ (d 1)),
)
documents-IsFound (status_is processing ∷ updated_before at ∷ []) limit d = (
  listed_if-IsFound (status_is processing ∷ updated_before at ∷ [])
      (λ m. is_processing m.status && ltb m.updated_at at) d (d 1) refl (λ m h. ground arith),
  within_limit limit _ (listed_if-length _ (d 1)),
)
documents-IsFound _ limit d = (tt, within_limit limit 0 (omega arith))

pub finding-FindLaws : FindLaws same_docs finding
finding-FindLaws = record {
  found_lem = λ f limit w cursor ms e h. ground (arith, documents-IsFound f limit w);
}

abbrev finder : MongoMessageRepository Docs
finder = record mongo { collection = finding }

abbrev pub unsent_message : Message
unsent_message = record (message_at 1 (pos 0)) { status = unsent }

abbrev pub with_unsent : Docs
with_unsent j = if j == 1 then some unsent_message else none

find_unsent_messages-IsFound_example :
    All (IsFound same_docs (status_is unsent ∷ []) with_unsent) (unsent_message ∷ [])
    × WithinLimit (some (pos 2)) 1
unfolding find_unsent_messages
find_unsent_messages-IsFound_example =
    find_unsent_messages-IsFound same_docs finder finding-FindLaws
      (closed_breaker-BreakerLaws same_docs) (pos 2) with_unsent (unsent_message ∷ []) refl
