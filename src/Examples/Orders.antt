-- ===== src/Examples/Orders.antt =====
-- Steps of several tasks, interleaved.
use cria.Prelude.{String, ◌≡◌, refl, true, false, some, List, [], ◌∷◌}
use cria.Table.{assoc_map, find, put, without, count, tally}
use cria.Text.{trim, trim_start, trim_end, is_whitespace}
use cria.HashMap
use cria.Config.{request_topic_for_model}
use cria.Pb
use cria.State
use cria.Streaming
use cria.Streaming.{sender_of}
use cria.Kafka.Messages.{TokenEventKind, stream_job_options}
use cria.Kafka.Producer
use cria.Kafka.Producer.{produce_request}
use cria.Api.Begin.{
  job_of, chosen_id, chosen_model, wants_replay, normalize_max_tokens, admit, identify,
  submit_begin,
}
use cria.Api.Finish.{produce}
use cria.Api.Control.{response, get_status}
use cria.System.{
  Action, submit_starts, submit_ends, cancel_called, event_comes, event_goes, replay_goes, started,
  step, run,
}
use cria.System.Isolation.{IsOwned}
use cria.System.Keeping.{AllFor}
use cria.System.Runs.{run-IsOwned, get_status-run}
use cria.Examples.Setup.{
  channels, broker, no_channels, config, producer, ambient, asking, abort, token_event,
}

-- A token comes while the submission still waits, and goes out behind a cancellation.
abbrev interleaved : List Action
interleaved =
    submit_starts (asking "r1" false) ambient
    ∷ event_comes (token_event "r1" TokenEventKind.token 1) 5
    ∷ cancel_called (abort "r1") ambient
    ∷ submit_ends 0
    ∷ event_goes
    ∷ submit_starts (asking "r2" true) ambient
    ∷ replay_goes 0
    ∷ []

run-IsOwned_example :
    let g = (run config producer (started no_channels) interleaved).gateway in
    ((id : String) × IsOwned g.streams 0 id) × AllFor "r1" (State.events g.state "r1")
run-IsOwned_example = run-IsOwned config producer no_channels interleaved 0 "r1" (λ i. refl)

abbrev one_step : List Action
one_step = submit_starts (asking "r1" false) ambient ∷ []

registered_then :
    sender_of (run config producer (started no_channels) one_step).gateway.streams "r1" ≡ some 0
unfolding run step started produce produce_request Producer.send submit_begin normalize_max_tokens
    identify admit job_of chosen_id chosen_model wants_replay trim trim_start trim_end is_whitespace
    State.active_count State.new count tally request_topic_for_model HashMap.get HashMap.insert
    HashMap.empty Streaming.register Streaming.new find put without stream_job_options sender_of
registered_then = refl

get_status-run_example :
    (r : Pb.StatusResponse) × (get_status
        (run config producer (started no_channels) one_step).gateway
        "r1"
      ≡ response r)
get_status-run_example =
    get_status-run config producer no_channels one_step "r1" 0 (λ i. refl) registered_then
