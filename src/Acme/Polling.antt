-- ===== src/Acme/Polling.antt =====
-- The poll of an order's authorizations (certmon/acme_service.py).
use certmon.Prelude.{
  ℕ, zero, suc, ◌+◌, ◌*◌, ◌≤◌, ◌<◌, String, false, ◌≡◌, refl, inl, inr, arith, Option, none, some,
  List, [], ◌∷◌, ◌++◌, All, length, leb, same_option, same_option_iff, Bool-cases,
}
use mathlib.Core.Path.{subst}
use certmon.Outcome.{Error, Result, ok, err, Action, continue}
use certmon.Acme.{Acme, Attempt, OrderClient, StatusAnswer, microseconds, parse_retry_after}
use certmon.Acme.Orders.{
  Waits, timeout, delay_for, wait_and_retry, answered, attempted, poll_one, poll_all,
}

module _ (a : Acme) (client : OrderClient) (max_attempts deadline_seconds deadline : ℕ) where
  abbrev limit : ℕ
  limit = microseconds deadline_seconds

  delay_for-le :
      (now : ℕ) (o : Option ℕ)
      → delay_for a client max_attempts deadline_seconds deadline now o ≤ limit
  unfolding delay_for
  delay_for-le now none = ground arith
  delay_for-le now (some at) = ground arith

  -- the attempt was made before the deadline, and its answer was "valid"
  abbrev pub Approves : Attempt → Type 0
  Approves t =
      (r : StatusAnswer) × ((t.answer ≡ ok r)
        × ((r.status ≡ some "valid") × (t.checked < deadline)))

  module _ (P : Result ℕ × Waits → Type 0) (total : ℕ) (t : Attempt) (waits : Waits)
      (again : Action Waits ℕ) (fails : (e : Error) → P (err e, waits))
      (approved : Approves t → P (ok (suc total), waits))
      (retried : (d : ℕ) → d ≤ limit → P (again (waits ++ d ∷ []))) where
    wait_rule :
        (r : StatusAnswer) (parsed : Result (Option ℕ))
        → parse_retry_after a t.parsed r.retry_after ≡ parsed
        → P (wait_and_retry a client max_attempts deadline_seconds deadline t r again waits)
    unfolding wait_and_retry
    wait_rule r (err e) same = rw same (fails e)
    wait_rule r (ok at) same = rw same (retried _ (delay_for-le t.delayed at))

    answered_rule :
        (r : StatusAnswer)
        → t.answer ≡ ok r
        → t.checked < deadline
        → P (answered a client max_attempts deadline_seconds deadline total t r again waits)
    unfolding answered
    answered_rule r got early = elim (Bool-cases (same_option r.status (some "valid"))) [
      | inl e ↦ rw e (approved (r, (got, ((same_option_iff r.status (some "valid")).0 e, early))))
      | inr e ↦ rw e (elim (Bool-cases (same_option r.status (some "invalid"))) [
        | inl k ↦ rw k (fails _)
        | inr k ↦ rw k (wait_rule r (parse_retry_after a t.parsed r.retry_after) refl)
      ])
    ]

    reply_rule :
        (reply : Result StatusAnswer)
        → t.answer ≡ reply
        → leb deadline t.checked ≡ false
        → P (attempted a client max_attempts deadline_seconds deadline total t again waits)
    unfolding attempted
    reply_rule (err x) got early = rw (early, got) (fails x)
    reply_rule (ok r) got early = rw (early, got) (answered_rule r got (ground (arith, early)))

    attempted_rule :
        P (attempted a client max_attempts deadline_seconds deadline total t again waits)
    unfolding attempted
    attempted_rule = elim (Bool-cases (leb deadline t.checked)) [
      | inl e ↦ rw e (fails timeout)
      | inr e ↦ reply_rule t.answer refl e
    ]

  abbrev pub IsShort : ℕ → Type 0
  IsShort d = d ≤ microseconds deadline_seconds

  -- a count of attempts, from `low` to `high`
  abbrev pub Counted : ℕ → ℕ → Result ℕ → Type 0
  Counted low high (ok n) = (low ≤ n) × (n ≤ high)
  Counted low high (err e) = Unit

  abbrev pub Ends : ℕ → ℕ → ℕ → Result ℕ × Waits → Type 0
  Ends low high most (r, waits) = All IsShort waits × ((length waits ≤ most) × Counted low high r)

  IsShort-snoc : (ws : Waits) (d : ℕ) → All IsShort ws → IsShort d → All IsShort (ws ++ d ∷ [])
  IsShort-snoc [] d h k = (k, tt)
  IsShort-snoc (w ∷ ws) d (h, hs) k = (h, IsShort-snoc ws d hs k)

  length-snoc : (ws : Waits) (d : ℕ) → length (ws ++ d ∷ []) ≡ length ws + 1
  length-snoc [] d = refl
  length-snoc (w ∷ ws) d = ground (arith, length-snoc ws d)

  Counted-weaken :
      (l h l' h' : ℕ) (r : Result ℕ) → l' ≤ l → h ≤ h' → Counted l h r → Counted l' h' r
  Counted-weaken l h l' h' (ok n) p q (a, b) = (omega arith, omega arith)
  Counted-weaken l h l' h' (err e) p q k = tt

  Ends-weaken :
      (l h m l' h' m' : ℕ) (e : Result ℕ × Waits)
      → l' ≤ l
      → h ≤ h'
      → m ≤ m'
      → Ends l h m e
      → Ends l' h' m' e
  Ends-weaken l h m l' h' m' (r, ws) p q k (short, (few, counted)) =
      (short, (omega arith, Counted-weaken l h l' h' r p q counted))

  poll_one-Ends :
      (url : String) (left total : ℕ) (waits : Waits)
      → All IsShort waits
      → Ends
          (suc total)
          (total + left)
          (length waits + left)
          (poll_one a client max_attempts deadline_seconds deadline url left total waits)
  unfolding poll_one
  poll_one-Ends url zero total waits h = (h, (omega arith, tt))
  poll_one-Ends url (suc left) total waits h =
      attempted_rule (Ends (suc total) (total + suc left) (length waits + suc left)) total
        (client.poll url total) waits
        (poll_one a client max_attempts deadline_seconds deadline url left (suc total))
        (λ e. (h, (omega arith, tt))) (λ _. (h, (omega arith, (omega arith, omega arith))))
        λ d k.
          Ends-weaken _ _ _ _ _ _ _ (omega arith) (omega arith) (omega (arith, length-snoc waits d))
            (poll_one-Ends url left (suc total) (waits ++ d ∷ []) (IsShort-snoc waits d h k))

  module _ (urls : List String)
      (rest : (total : ℕ) (waits : Waits)
        → All IsShort waits
        → Ends
            (total + length urls)
            (total + max_attempts * length urls)
            (length waits + max_attempts * length urls)
            (poll_all a client max_attempts deadline_seconds deadline urls total waits)) where
    next-Ends :
        (total : ℕ) (base : ℕ) (m : Result ℕ × Waits)
        → Ends (suc total) (total + max_attempts) (base + max_attempts) m
        → Ends
            (total + suc (length urls))
            (total + max_attempts * suc (length urls))
            (base + max_attempts * suc (length urls))
            (continue (poll_all a client max_attempts deadline_seconds deadline urls) m)
    next-Ends total base (err e, ws) (short, (few, counted)) = (short, (grind arith, tt))
    next-Ends total base (ok n, ws) (short, (few, (low, high))) =
        Ends-weaken _ _ _ _ _ _ _ (omega arith) (grind arith) (grind arith) (rest n ws short)

  poll_all-Ends :
      (urls : List String) (total : ℕ) (waits : Waits)
      → All IsShort waits
      → Ends
          (total + length urls)
          (total + max_attempts * length urls)
          (length waits + max_attempts * length urls)
          (poll_all a client max_attempts deadline_seconds deadline urls total waits)
  unfolding poll_all
  poll_all-Ends [] total waits h = (h, (omega arith, (omega arith, omega arith)))
  poll_all-Ends (url ∷ urls) total waits h =
      next-Ends urls (poll_all-Ends urls) total (length waits) _
        (poll_one-Ends url max_attempts total waits h)

  -- The poll of an order, whatever the server answers: it waits at most `max_attempts` times for each
  -- authorization, never longer than the deadline's length at a time, and where it succeeds it has
  -- made at least one attempt and at most `max_attempts` for each.
  pub poll_all_bounds :
      (urls : List String)
      → Ends
          (length urls)
          (max_attempts * length urls)
          (max_attempts * length urls)
          (poll_all a client max_attempts deadline_seconds deadline urls 0 [])
  poll_all_bounds urls =
      Ends-weaken _ _ _ _ _ _ _ (omega arith) (omega arith) (omega arith)
        (poll_all-Ends urls 0 [] tt)

  -- Attempts `low` and later, one for each authorization and in their order, were answered "valid",
  -- each after at most `max_attempts - 1` others for the same authorization; `n` attempts were made.
  abbrev pub Answered : ℕ → List String → ℕ → Type 0
  Answered low [] n = low ≡ n
  Answered low (url ∷ urls) n =
      (i : ℕ) × ((low ≤ i)
        × ((i < low + max_attempts) × (Approves (client.poll url i) × Answered (suc i) urls n)))

  -- one authorization: the last of the attempts from `low` on is approved
  abbrev Last : String → ℕ → ℕ → ℕ → Type 0
  Last url low left n =
      (i : ℕ) × ((low ≤ i) × ((i < low + left) × (Approves (client.poll url i) × (n ≡ suc i))))

  abbrev Sound : (ℕ → Type 0) → Result ℕ × Waits → Type 0
  Sound P (ok n, waits) = P n
  Sound P (err e, waits) = Unit

  Sound-map :
      (P Q : ℕ → Type 0) (m : Result ℕ × Waits) → ((n : ℕ) → P n → Q n) → Sound P m → Sound Q m
  Sound-map P Q (ok n, waits) f h = f n h
  Sound-map P Q (err e, waits) f h = tt

  poll_one-Last :
      (url : String) (left total : ℕ) (waits : Waits)
      → Sound
          (Last url total left)
          (poll_one a client max_attempts deadline_seconds deadline url left total waits)
  unfolding poll_one
  poll_one-Last url zero total waits = tt
  poll_one-Last url (suc left) total waits =
      attempted_rule (Sound (Last url total (suc left))) total (client.poll url total) waits
        (poll_one a client max_attempts deadline_seconds deadline url left (suc total)) (λ e. tt)
        (λ k. (total, (omega arith, (omega arith, (k, refl)))))
        λ d _.
          Sound-map (Last url (suc total) left) (Last url total (suc left)) _
            (λ n (i, (low, (high, (k, e)))). (i, (omega arith, (omega arith, (k, e)))))
            (poll_one-Last url left (suc total) (waits ++ d ∷ []))

  next-Answered :
      (url : String) (urls : List String) (total : ℕ) (m : Result ℕ × Waits)
      → ((low : ℕ) (waits : Waits)
          → Sound
              (Answered low urls)
              (poll_all a client max_attempts deadline_seconds deadline urls low waits))
      → Sound (Last url total max_attempts) m
      → Sound
          (Answered total (url ∷ urls))
          (continue (poll_all a client max_attempts deadline_seconds deadline urls) m)
  next-Answered url urls total (err e, ws) rest h = tt
  next-Answered url urls total (ok n, ws) rest (i, (low, (high, (k, e)))) =
      Sound-map (Answered n urls) (Answered total (url ∷ urls)) _
        (λ last done. (i, (low, (high, (k, subst (λ j. Answered j urls last) e done))))) (rest n ws)

  poll_all-Sound :
      (urls : List String) (total : ℕ) (waits : Waits)
      → Sound
          (Answered total urls)
          (poll_all a client max_attempts deadline_seconds deadline urls total waits)
  unfolding poll_all
  poll_all-Sound [] total waits = refl
  poll_all-Sound (url ∷ urls) total waits =
      next-Answered url urls total _ (poll_all-Sound urls)
        (poll_one-Last url max_attempts total waits)

  Sound-elim : (P : ℕ → Type 0) (m : Result ℕ × Waits) (n : ℕ) → Sound P m → m.0 ≡ ok n → P n
  Sound-elim P (ok k, waits) n h e = subst P (ground (arith, e)) h
  Sound-elim P (err x, waits) n h e = ground (arith, e)

  -- A poll that succeeds after `n` attempts, numbered from 0, has had the answer "valid" for every
  -- authorization of the order, in their order: to an attempt among the `n` made, at most
  -- `max_attempts` for each authorization, of which the approved one is the last, and which was begun
  -- before the deadline. Its answer may come later.
  pub poll_all-Answered :
      (urls : List String) (n : ℕ)
      → (poll_all a client max_attempts deadline_seconds deadline urls 0 []).0 ≡ ok n
      → Answered 0 urls n
  poll_all-Answered urls n e =
      Sound-elim (Answered 0 urls)
        (poll_all a client max_attempts deadline_seconds deadline urls 0 []) n
        (poll_all-Sound urls 0 []) e
