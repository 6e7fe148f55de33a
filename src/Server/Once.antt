-- ===== src/Server/Once.antt =====
-- A session of the proxy starts one program at most.
use voidshell.Prelude.{
  ℕ, ◌≤◌, ◌≡◌, refl, Bool, true, false, Option, none, some, List, [], ◌∷◌, if◌then◌else◌, arith,
}
use voidshell.Server.Wire.{Request, Wire}
use voidshell.Server.Proxy.{
  Run, starts_program, is_pty, valid_proxy_request, counts, add_sent, add_reply, now_started,
  now_pty, pass_requests, count_starts, count_ptys,
}

-- How many programs may still be started, and how many terminals may be asked for.
abbrev room : Bool → ℕ
room b = if b then 0 else 1

module _ (wire : Wire) where
  -- Neither a program nor a terminal is asked for once a program was started.
  valid-starts :
      (req : Request) (started pty : Bool)
      → valid_proxy_request wire req started pty ≡ true
      → starts_program req ≡ true
      → started ≡ false
  unfolding valid_proxy_request starts_program
  valid-starts req started pty h k = ground arith

  valid-pty :
      (req : Request) (started pty : Bool)
      → valid_proxy_request wire req started pty ≡ true
      → is_pty req ≡ true
      → (pty ≡ false) × (started ≡ false)
  unfolding valid_proxy_request is_pty
  valid-pty req started pty h k = ground arith

sent-add_reply : (req : Request) (b : Bool) (run : Run) → (add_reply req b run).sent ≡ run.sent
unfolding add_reply
sent-add_reply req b run = refl

-- How much a run may send after the flags.
abbrev Bounded : Bool → Bool → Run → Type 0
Bounded started pty run =
    (count_starts run.sent ≤ (if started then 0 else 1))
    × (count_ptys run.sent ≤ (if pty then 0 else 1))

sent-Bounded :
    (wire : Wire) (req : Request) (started pty answer : Bool) (run : Run)
    → valid_proxy_request wire req started pty ≡ true
    → Bounded
        (now_started started req (counts req answer))
        (now_pty pty req (counts req answer))
        run
    → Bounded started pty (add_sent req (counts req answer) (add_reply req answer run))
unfolding add_sent count_starts count_ptys now_started now_pty
sent-Bounded wire req started pty answer run valid h =
    let same = sent-add_reply req answer run in
    let starts = valid-starts wire req started pty valid in
    let ptys = valid-pty wire req started pty valid in rw same (ground arith)

module _ (wire : Wire) (send : List Request → Request → Option Bool) where
  -- What the workspace's SSH server is sent, and counts, starts one program at most, and asks for
  -- one terminal at most; none where that has already been done.
  pub pass_requests-once :
      (before : List Request) (started pty : Bool) (reqs : List Request)
      → (count_starts (pass_requests wire send before started pty reqs).sent
          ≤ (if started then 0 else 1))
        × (count_ptys (pass_requests wire send before started pty reqs).sent
            ≤ (if pty then 0 else 1))
  unfolding pass_requests count_starts count_ptys add_sent
  pass_requests-once before started pty [] = (omega arith, omega arith)
  pass_requests-once before started pty (req ∷ rest) =
      by_valid (valid_proxy_request wire req started pty) refl
        (λ e answer. sent-Bounded wire req started pty answer _ e (
          pass_requests-once (req ∷ before) (now_started started req (counts req answer))
            (now_pty pty req (counts req answer)) rest))
        (pass_requests-once before started pty rest)
    where
      after : Bool → Run
      after answer = add_sent req (counts req answer) (
          add_reply req answer (
            pass_requests wire send (req ∷ before) (now_started started req (counts req answer))
              (now_pty pty req (counts req answer)) rest))

      by_answer :
          (o : Option Bool)
          → ((answer : Bool) → Bounded started pty (after answer))
          → Bounded started pty
              (elim o [ none ↦ record { sent = []; replies = [] } | some answer ↦ after answer ])
      by_answer none k = (omega arith, omega arith)
      by_answer (some answer) k = k answer

      by_valid :
          (v : Bool)
          → valid_proxy_request wire req started pty ≡ v
          → (valid_proxy_request wire req started pty ≡ true
              → (answer : Bool) → Bounded started pty (after answer))
          → Bounded started pty (pass_requests wire send before started pty rest)
          → Bounded started pty (elim v [
            | false ↦ add_reply req false (pass_requests wire send before started pty rest)
            | true ↦ elim (send before req) [
              | none ↦ record { sent = []; replies = [] }
              | some answer ↦ after answer
            ]
          ])
      by_valid true e k skip = by_answer (send before req) (k e)
      by_valid false e k skip =
          rw (sent-add_reply req false (pass_requests wire send before started pty rest)) skip
