-- ===== src/Processor/Service/Traced.antt =====
-- The processor service over histories, for an arbitrary environment.
use reliable_messaging_syste.Processor.Domain.{MessageProcessor}
use reliable_messaging_syste.Processor.Service.{ProcessorService}
use reliable_messaging_syste.Trace.{
  Env, Trace, repository, queue, idempotency_service, webhook_client, platform,
}

abbrev pub traced_service : Env → MessageProcessor → ProcessorService Trace
traced_service env p = record {
  processor = p;
  repository = repository env;
  queue = queue env;
  idempotency_service = idempotency_service env;
  webhook_client = webhook_client env;
  platform = platform env;
}
