-- ===== src/Acme/Orders.antt =====
-- `ACMEOrderService` of certmon/acme_service.py.
use certmon.Prelude.{
  ℕ, zero, suc, ◌+◌, ◌-◌, String, Bool, true, not, ◌==◌, Option, none, some, List, [], ◌∷◌, ◌++◌,
  if◌then◌else◌, ◌||◌, leb, same_option, get_or,
}
use Prim.Native.String
use certmon.Outcome.{
  Error, Result, ok, err, order_error, key_error, value_error, Action, pure, raise, raise_if, lift,
  gets, or_raise, modify, ◌>>=◌, ◌>>◌,
}
use certmon.Models.{RenewalState, failed, issuing, awaiting_dns}
use certmon.Db.{Job, Account, Setting, Order, OrderChallenge, acme_order, Query}
use certmon.Db.Jobs.{Updates, get_job, error_code, error_message}
use certmon.Db.Settings.{get_setting, put_setting}
use certmon.Acme.{
  Acme, Attempt, OrderClient, StatusAnswer, OfferedChallenge, Authorization, NewOrder, FinalAnswer,
  microseconds, problem_error, parse_retry_after, translate_problem, detail_or,
}
use certmon.Acme.Accounts.{load}

abbrev pub order_key : String → String
order_key job_id = String.◌++◌ "acme-order:" job_id

-- the value under `acme-order:`, which holds nothing but orders
abbrev pub order_of : Option Setting → Option Order
order_of (some (acme_order order)) = some order
order_of _ = none

abbrev pub no_environment : Option String → Bool
no_environment none = true
no_environment (some e) = e == ""

-- the first challenge of the type `dns-01`
unfoldable pub dns_challenge : List OfferedChallenge → Option OfferedChallenge
dns_challenge [] = none
dns_challenge (c ∷ cs) = if same_option c.kind (some "dns-01") then some c else dns_challenge cs

abbrev pub unavailable : Error
unavailable = order_error "acme_dns_challenge_unavailable" "No DNS-01 challenge" none

-- the loop of `create_order`
unfoldable pub order_challenges : List Authorization → Result (List OrderChallenge)
unfolding dns_challenge
order_challenges [] = ok []
order_challenges (z ∷ zs) = elim (dns_challenge z.challenges) [
  | none ↦ err unavailable
  | some c ↦ elim (order_challenges zs) [
    | err e ↦ err e
    | ok rest ↦ ok (
        record {
          identifier = z.identifier;
          authorization_url = z.url;
          challenge_url = c.url;
          fqdn = c.fqdn;
          value = c.value;
        }
        ∷ rest)
  ]
]

unfoldable pub authorization_urls : List Authorization → List String
authorization_urls [] = []
authorization_urls (z ∷ zs) = z.url ∷ authorization_urls zs

-- the waits of a poll, in order
abbrev pub Waits : Type 0
Waits = List ℕ

abbrev pub timeout : Error
timeout = order_error "acme_poll_timeout" "ACME authorization polling timed out" none

abbrev pub incomplete : Error
incomplete = order_error "acme_poll_timeout" "Authorization did not complete" none

abbrev smaller : ℕ → ℕ → ℕ
smaller x y = if leb x y then x else y

module _ (a : Acme) (client : OrderClient) (max_attempts deadline_seconds deadline : ℕ) where
  -- the delay of one second, or until the time that the server asked for, up to the deadline's length
  unfoldable pub delay_for : ℕ → Option ℕ → ℕ
  delay_for now none = smaller (microseconds 1) (microseconds deadline_seconds)
  delay_for now (some retry_at) = smaller (retry_at - now) (microseconds deadline_seconds)

  -- an authorization that is neither valid nor invalid is asked again after a delay
  unfoldable pub wait_and_retry : Attempt → StatusAnswer → Action Waits ℕ → Action Waits ℕ
  unfolding delay_for
  wait_and_retry t r again = do
    retry_at ← lift (parse_retry_after a t.parsed r.retry_after)
    modify (λ waits. waits ++ delay_for t.delayed retry_at ∷ [])
    again

  unfoldable pub answered : ℕ → Attempt → StatusAnswer → Action Waits ℕ → Action Waits ℕ
  unfolding wait_and_retry
  answered total t r again =
      if same_option r.status (some "valid")
      then pure (suc total)
      else if same_option r.status (some "invalid")
      then raise (problem_error a t.parsed r)
      else wait_and_retry t r again

  unfoldable pub attempted : ℕ → Attempt → Action Waits ℕ → Action Waits ℕ
  unfolding answered
  attempted total t again =
      if leb deadline t.checked
      then raise timeout
      else (lift t.answer >>= λ r. answered total t r again)

  -- the attempts at one authorization, of which `left` are left; the result counts all attempts
  unfoldable pub poll_one : String → ℕ → ℕ → Action Waits ℕ
  unfolding attempted
  poll_one url zero total = raise incomplete
  poll_one url (suc left) total =
      let again = poll_one url left (suc total) in attempted total (client.poll url total) again

  unfoldable pub poll_all : List String → ℕ → Action Waits ℕ
  unfolding poll_one
  poll_all [] total = pure total
  poll_all (url ∷ urls) total = poll_one url max_attempts total >>= poll_all urls

module _ (a : Acme) (now : ℕ) where
  -- `_job`
  unfoldable pub acme_job : String → Query (Job × String)
  acme_job job_id = do
    job ← or_raise (← gets (get_job job_id)) (key_error job_id)
    raise_if (not (job.issuer_type == "acme")) (value_error "Job is not an ACME renewal")
    raise_if (no_environment job.environment) (value_error "ACME environment is required")
    pure (job, get_or job.environment "")

  unfoldable pub client_of : Option (Account × String) → Query OrderClient
  client_of none = raise (value_error "No ACME account configured")
  client_of (some (account, key)) = pure (a.order_client account key)

  -- `_client`
  unfoldable pub load_client : String → Query OrderClient
  unfolding client_of
  load_client environment = do
    loaded ← gets (load a environment)
    loaded ← lift loaded
    client_of loaded

  -- `_order`
  unfoldable pub stored_order : String → Query Order
  stored_order job_id = gets (λ db. order_of (get_setting (order_key job_id) db)) >>= λ o.
      or_raise o (key_error job_id)

  unfoldable pub keep_order :
      String → Job → String → String → NewOrder → List OrderChallenge → Query Unit
  keep_order job_id job environment csr_pem order challenges = put_setting (order_key job_id) (
      acme_order (record {
        job_id = job_id;
        environment = environment;
        order_url = order.order_url;
        status = get_or order.status "pending";
        authorization_urls = authorization_urls order.authorizations;
        dns_challenges = challenges;
        csr_pem = csr_pem;
        created_at = now;
      }))

  unfoldable pub create_with :
      String → String → Job → String → OrderClient → Query (List OrderChallenge)
  unfolding order_challenges authorization_urls keep_order
  create_with job_id csr_pem job environment client = do
    order ← lift (client.create_order job.identifiers csr_pem)
    challenges ← lift (order_challenges order.authorizations)
    keep_order job_id job environment csr_pem order challenges
    pure challenges

  unfoldable pub create_order : String → String → Query (List OrderChallenge)
  unfolding acme_job load_client create_with
  create_order job_id csr_pem = do
    (job, environment) ← acme_job job_id
    client ← load_client environment
    create_with job_id csr_pem job environment client

  -- `poll_authorizations`; the waits leave no trace in the database
  unfoldable pub poll_authorizations : ℕ → ℕ → String → Query ℕ
  unfolding stored_order load_client poll_all
  poll_authorizations max_attempts deadline_seconds job_id = do
    order ← stored_order job_id
    client ← load_client order.environment
    total ←
        lift
          (poll_all a client max_attempts deadline_seconds (now + microseconds deadline_seconds)
            order.authorization_urls 0 []).0
    put_setting (order_key job_id) (acme_order (record order { status = "ready" }))
    pure total

  unfoldable pub answer_all : OrderClient → List OrderChallenge → Result Unit
  answer_all client [] = ok tt
  answer_all client (c ∷ cs) = elim (client.answer_dns_challenge c.challenge_url) [
    | err e ↦ err e
    | ok _ ↦ answer_all client cs
  ]

  unfoldable pub answer_challenges : String → Query Unit
  unfolding stored_order load_client answer_all
  answer_challenges job_id = do
    order ← stored_order job_id
    client ← load_client order.environment
    lift (answer_all client order.dns_challenges)

  unfoldable pub finalize : String → Query FinalAnswer
  unfolding stored_order load_client
  finalize job_id = do
    order ← stored_order job_id
    client ← load_client order.environment
    r ← lift (client.finalize_order order.order_url order.csr_pem)
    raise_if (same_option r.answer.status (some "invalid")) (problem_error a now r.answer)
    put_setting (order_key job_id)
        (acme_order (record order { status = get_or r.answer.status "valid" }))
    pure r

  retry_note : String → Result (Option ℕ) → Result String
  retry_note message (err e) = err e
  retry_note message (ok none) = ok message
  retry_note message (ok (some at)) =
      ok (String.◌++◌ message (String.◌++◌ "; retry after " (a.isoformat at)))

  invalid_target : StatusAnswer → Result String → Result (RenewalState × Updates)
  invalid_target r (err e) = err e
  invalid_target r (ok message) = ok (
    failed,
    (error_code, some (translate_problem r.problem)) ∷ (error_message, some message) ∷ [],
  )

  -- the answer of `reconcile` for the status of an order
  unfoldable pub reconciled : StatusAnswer → Result (RenewalState × Updates)
  unfolding retry_note invalid_target
  reconciled r =
      if same_option r.status (some "invalid")
      then invalid_target r (
          retry_note (detail_or "ACME order is invalid" r.problem)
            (parse_retry_after a now r.retry_after))
      else if same_option r.status (some "ready") || same_option r.status (some "processing")
      then ok (issuing, [])
      else if same_option r.status (some "valid")
      then ok (issuing, [])
      else ok (awaiting_dns, [])

  unfoldable pub reconcile : Job → Query (RenewalState × Updates)
  unfolding stored_order load_client reconciled
  reconcile job = do
    order ← stored_order job.id
    client ← load_client order.environment
    answer ← lift (client.get_order order.order_url)
    lift (reconciled answer)
