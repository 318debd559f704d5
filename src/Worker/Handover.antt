-- ===== src/Worker/Handover.antt =====
-- From `submit` (control-plane/src/api/mod.rs) to the worker: the job that a message holds.
use cria.Prelude.{ℕ, ◌≤◌, ◌<◌, ◌≡◌, refl, ◌∙◌, some, arith, ◌==◌, if◌then◌else◌}
use cria.Table.{DashMap}
use cria.Text.{trim, is_empty}
use cria.Config.{Config}
use cria.Pb.{InferenceRequest}
use cria.Streaming.{Mpsc}
use cria.Kafka.Messages
use cria.Gateway.{Gateway}
use cria.Api.Begin.{Ambient, enqueuing, submit_begin, job_of}
use cria.Api.Admission.{identify-enqueuing, checks_passed, normalize_within}
use cria.Worker.Events.{
  Payload, SamplingOptions, InferenceJob, from_payload, sampling_from, or_default, is_int_zero,
}
use cria.Worker.Loop.{Message, Setting, read, read_job, loaded}

-- The payload has the fields of the control plane's job, as `serde_json` writes them and `json.loads`
-- reads them.
pub record Carries (job : Messages.InferenceJob) (p : Payload) : Type 0 where
  pub request_id : p.request_id ≡ some job.request_id
  pub prompt : p.prompt ≡ some job.prompt
  pub max_tokens : p.max_tokens ≡ some job.max_tokens

or_default-positive : (n : ℕ) → 0 < n → or_default is_int_zero (some n) 128 ≡ n
or_default-positive n h = ground (arith, h)

from_payload-Carries :
    (job : Messages.InferenceJob) (p : Payload) (defaults : SamplingOptions)
    → Carries job p
    → 0 < job.max_tokens
    → (j : InferenceJob) × (from_payload p defaults ≡ some j)
      × (j.request_id ≡ job.request_id)
      × (j.prompt ≡ job.prompt)
      × (j.max_tokens ≡ job.max_tokens)
unfolding from_payload sampling_from
from_payload-Carries job p defaults h some_tokens = (
  record {
    request_id = job.request_id;
    model_id = or_default is_empty p.model_id "mock";
    prompt = job.prompt;
    max_tokens = or_default is_int_zero p.max_tokens 128;
    sampling = sampling_from p defaults;
    deadline_ms = or_default is_int_zero p.deadline_ms 0;
  },
  rw (h.request_id, h.prompt) refl,
  refl,
  refl,
  rw h.max_tokens (or_default-positive job.max_tokens some_tokens),
)

read_job-loaded :
    (s : Setting) (m : Message) (p : Payload) (j : InferenceJob)
    → s.loads m.value ≡ loaded p
    → from_payload p s.defaults ≡ some j
    → read_job s m ≡ read j
unfolding read_job
read_job-loaded s m p j parses reads = rw (parses, read_job) (rw reads refl)

module _ ⦃d : DashMap⦄ ⦃ch : Mpsc⦄ where
  -- Where submit hands a job to the producer, with a default of max_tokens above 0, and the
  -- worker's parser finds the fields of that job in a message: the worker reads a job from it,
  -- under the same identifier, with the trimmed prompt of the request, and with the number of
  -- tokens that was asked for, or the default of the gateway for 0, which is above 0 and within
  -- the gateway's limit; never the worker's own default.
  pub job-handed :
      (c : Config) (g : Gateway) (request : InferenceRequest) (amb : Ambient)
      (job : Messages.InferenceJob) (receiver : ℕ) (s : Setting) (m : Message) (p : Payload)
      → (submit_begin c g request amb).1 ≡ enqueuing job receiver
      → 0 < c.default_max_tokens
      → s.loads m.value ≡ loaded p
      → Carries job p
      → (j : InferenceJob) × (read_job s m ≡ read j)
        × (j.request_id ≡ job.request_id)
        × (j.prompt ≡ trim request.prompt)
        × (j.max_tokens
            ≡ (if request.max_tokens == 0 then c.default_max_tokens else request.max_tokens))
        × (0 < j.max_tokens)
        × (j.max_tokens ≤ c.max_tokens_limit)
  job-handed c g request amb job receiver s m p begun default_above parses carries =
      let (n, fine, _, _, _, path) = checks_passed c g request amb job receiver begun in
      let (_, same, _, _, _) =
        identify-enqueuing c g request amb (trim request.prompt) n job receiver
          (rw (← path) begun) in
      let (within_limit, asked) =
        normalize_within request.max_tokens c.default_max_tokens c.max_tokens_limit n fine in
      let many : job.max_tokens ≡ n = rw same (unfold job_of in refl) in
      let above : 0 < n = ground (arith, asked, default_above) in
      let (j, reads, named, prompted, counted) =
        from_payload-Carries job p s.defaults carries (omega (arith, many, above)) in
      (
        j,
        read_job-loaded s m p j parses reads,
        named,
        prompted ∙ rw same (unfold job_of in refl),
        counted ∙ many ∙ asked,
        omega (arith, counted, many, above),
        omega (arith, counted, many, within_limit),
      )
