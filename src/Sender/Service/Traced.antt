-- ===== src/Sender/Service/Traced.antt =====
-- The sender service over histories, for an arbitrary environment.
use reliable_messaging_syste.Sender.Domain.{MessageSender}
use reliable_messaging_syste.Sender.Service.{SenderService}
use reliable_messaging_syste.Trace.{Env, Trace, repository, queue, platform}

abbrev pub traced_service : Env → MessageSender → SenderService Trace
traced_service env sender = record {
  sender = sender;
  repository = repository env;
  queue = queue env;
  platform = platform env;
}
