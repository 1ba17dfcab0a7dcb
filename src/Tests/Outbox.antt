-- ===== src/Tests/Outbox.antt =====
-- An outbox of one waiting content event, and a worker that is wired to one endpoint.
use saas_forge.Base.{
  ◌↔◌, zero, suc, ℕ, ◌≡◌, refl, Bool, true, false, [], ◌∷◌, All, some, none, ◌==◌, string_eq,
  if◌then◌else◌, arith,
}
use saas_forge.Outbox.Table.{Row, pending, is_processing}
use saas_forge.Outbox.Table.Rows.{IsTable, events}
use saas_forge.Outbox.Worker.{
  Downstream, Worker, World, WebhookEndpoint, ContentEventPayload, parse_content_payload, send_all,
  deliver_content, process_batch, tick, new_worker,
}
use saas_forge.Outbox.Worker.Batch.{tick-IsTable, tick-events}
use saas_forge.Outbox.Worker.Settles.{process_batch-settled}
use saas_forge.Outbox.Worker.Delivery.{IsAccepted, deliver_content-posts}
use saas_forge.Outbox.Worker.Counters.{IsBalanced, tick-IsBalanced}

abbrev a_row : Row
a_row = record {
  id = 1;
  aggregate_id = 10;
  event_type = "content.published";
  payload = "payload";
  status = pending;
  retry_count = 0;
  idempotency_key = "k1";
  last_error = none;
  created_at = 100;
  claimed_at = none;
  processed_at = none;
}

abbrev an_endpoint : WebhookEndpoint
an_endpoint = record { id = 3; url = "https://example.test"; secret = "s" }

abbrev a_payload : ContentEventPayload
a_payload = record { tenant_id = "acme"; entry_id = "10"; content_type = "post"; locale = "en" }

-- the first attempt is refused
abbrev wired : Downstream
wired = record {
  decode_user = λ raw. none;
  decode_content = λ raw. if raw == "payload" then some a_payload else none;
  parse_uuid = λ s. none;
  webhooks_wired = true;
  notifier_wired = true;
  endpoints = λ tenant. some (an_endpoint ∷ []);
  send = λ n s. elim n [ zero ↦ some "503" | suc _ ↦ none ];
}

abbrev a_worker : Worker
unfolding new_worker
a_worker = new_worker 0 0 0

abbrev a_world : World
a_world = record {
  rows = a_row ∷ [];
  calls = 0;
  sent = [];
  attempts = 0;
  notices = [];
  metrics = record { delivered = 0; failed = 0; retried = 0; dead = 0 };
}

abbrev never : ℕ → Bool
never n = false

a_world-IsTable : IsTable 5 a_world.rows
a_world-IsTable = record { keyed = (refl, tt); sound = (omega arith, tt) }

tick-IsTable_example :
    IsTable a_worker.max_retries (tick wired a_worker never 200 never a_world).rows
unfolding new_worker
tick-IsTable_example = tick-IsTable wired a_worker never 200 never a_world a_world-IsTable

tick-events_example :
    events (tick wired a_worker never 200 never a_world).rows ≡ events a_world.rows
tick-events_example = tick-events wired a_worker never 200 never a_world

process_batch-settled_example :
    All (λ r. is_processing r ≡ false) (process_batch wired a_worker never 200 never a_world).rows
process_batch-settled_example =
    process_batch-settled wired a_worker never 200 (λ n. refl) never a_world (refl, tt)

abbrev retried_world : World
retried_world = record a_world { attempts = 1 }

deliver_content-posts_example :
    ((deliver_content wired a_row retried_world).0 ≡ none) ↔ IsAccepted wired a_row retried_world
deliver_content-posts_example = deliver_content-posts wired a_row retried_world

-- The second attempt is answered.
delivered_test : (deliver_content wired a_row retried_world).0 ≡ none
unfolding deliver_content send_all parse_content_payload
delivered_test = refl

tick-IsBalanced_example : IsBalanced (tick wired a_worker never 200 never a_world).metrics
unfolding IsBalanced
tick-IsBalanced_example = tick-IsBalanced wired a_worker never 200 never a_world refl
