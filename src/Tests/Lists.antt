-- ===== src/Tests/Lists.antt =====
-- The process of Daemons ends a duty, and lists it.
use eth2_validator.Base.{false, ◌≡◌, refl, [], ◌∷◌, pos, ok, string_eq}
use eth2_validator.GoMap
use eth2_validator.DutyQueue.{new_eval_queue, ack}
use eth2_validator.DutyQueue.Ack.{acked_by}
use eth2_validator.State.Index.{job_from_object, block_from_object, attest_from_object}
use eth2_validator.State.Schema.{string_from_object}
use eth2_validator.State.Store.{
  State, from_index, transact, db_put, upsert_loop, upsert, upsert_duties, upsert_duty, duty_by_id,
  duties_list,
}
use eth2_validator.Server.{list_duties}
use eth2_validator.Server.Core.{completed, write_result, finish}
use eth2_validator.Server.Core.Turns.{Daemon, ends, Turns, next}
use eth2_validator.Server.Core.Kept.{boot}
use eth2_validator.Server.Core.Jobs.{IsServed, Turns-IsServed}
use eth2_validator.Tests.Tables.Objects.{find}
use eth2_validator.Tests.Tables.Keys.{any_key}
use eth2_validator.Tests.Tables.Objects.{filter, latest_of, is_taken, all_takes, insert_in}
use eth2_validator.Tests.Files.{parts, parts-IsParts}
use eth2_validator.Tests.States.{block}
use eth2_validator.Tests.Daemons.{
  setup, query, query-IsQuery, started, new_server-started, after_round, ready, ready-Turns,
}

abbrev ended : State parts
ended = (upsert_duty parts after_round (completed setup ready.server block block.result)).0

abbrev listing : Daemon setup query ("a" ∷ [])
listing = record ready {
  server = record (ready.server) { state = ended; written = [] };
  acked = acked_by block.id [] (GoMap.lookup block.id ready.server.eval_queue.unack);
}

finish-listing : finish setup ready.server block block.result ≡ ok listing.server
unfolding finish write_result GoMap.delete duty_by_id find ack upsert_duty upsert_duties upsert
    upsert_loop transact from_index db_put insert_in all_takes is_taken string_from_object
    job_from_object block_from_object attest_from_object GoMap.insert GoMap.lookup new_eval_queue
finish-listing = refl

listing-Turns :
    Turns setup query
      ("a" ∷ [])
      (boot setup query ("a" ∷ []) parts-IsParts query-IsQuery started 7)
      listing
listing-Turns = next ready-Turns (ends block block.result false finish-listing)

one_listed :
    list_duties (pos 5) (duties_list parts ended)
    ≡ completed setup ready.server block block.result ∷ []
unfolding list_duties duties_list upsert_duty upsert_duties upsert upsert_loop transact from_index
    db_put insert_in all_takes is_taken string_from_object job_from_object block_from_object
    attest_from_object GoMap.insert latest_of filter any_key
one_listed = refl

Turns-IsServed_example : IsServed (duties_list parts ended)
Turns-IsServed_example =
    Turns-IsServed setup query ("a" ∷ []) parts-IsParts query-IsQuery started 7 listing
      new_server-started listing-Turns
