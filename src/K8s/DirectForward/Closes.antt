-- ===== src/K8s/DirectForward/Closes.antt =====
-- What `forwardSSH` keeps open, what it closes, and what it answers.
use voidshell.Prelude.{◌≡◌, ◌≢◌, refl, ◌⊎◌, inl, inr, true, false, none, some, arith}
use voidshell.K8s.ForwardSsh
use voidshell.K8s.ForwardSsh.Invariant.{IsDue}
use voidshell.K8s.ForwardSsh.Results.{result-IsDue}
use voidshell.K8s.DirectForward.{
  opening, looping, returned, AfterFunc, unset, armed, started, ran, stopped, cancelled, looped,
  Direct, func_starts, func_closes, step, Reach,
}
use voidshell.K8s.DirectForward.Invariant.{Inv, Reach-Inv, loop_reached, ran_only, is_started}

after_cases :
    (a : AfterFunc)
    → (a ≡ armed)
      ⊎ (a ≡ started)
      ⊎ (a ≡ ran)
      ⊎ (a ≢ armed) × (ran_only a ≡ false) × (is_started a ≡ false)
after_cases unset = inr (inr (inr (λ e. cc, refl, refl)))
after_cases armed = inl refl
after_cases started = inr (inl refl)
after_cases ran = inr (inr (inl refl))
after_cases stopped = inr (inr (inr (λ e. cc, refl, refl)))

-- What can still close the client where the context has ended.
Closing : Direct → Type 0
Closing s =
    (s.client_closed ≡ true)
    ⊎ ((s' : Direct) × (step func_starts s ≡ some s'))
    ⊎ ((s' : Direct) × (step func_closes s ≡ some s') × (s'.client_closed ≡ true))

interrupted : (s : Direct) → Inv s → s.phase ≡ opening → s.context_done ≡ true → Closing s
unfolding step Closing
interrupted s inv p c = elim (after_cases s.after) [
  | inl e ↦ inr (inl (record s { after = started }, rw (e, c) refl))
  | inr (inl e) ↦ inr (inr (record s { after = ran; client_closed = true }, rw e refl, refl))
  | inr (inr (inl e)) ↦ inl (ground arith)
  | inr (inr (inr (x, y, z))) ↦ absurd (ground arith)
]

-- Between any two steps of `forwardSSH`, its goroutines and the function that it has registered:
-- while it opens its channel and the context has ended, the client is closed, or the function can
-- start, or it can close the client. In the loop neither the client nor the channel is closed, and
-- the function cannot start any more, so the end of the context does not cut the drain. Where it
-- has returned, the client and the channel that it has opened are closed, the function cannot
-- start, and there is an answer. The answer is what the loop has come to only where that is due: no
-- error only after the input and the output were copied to their ends without an error and the
-- backend had closed the channel; the error of a copy only if that copy ended with it; and the
-- context's error only after the context had ended, and the output had not reached its end or the
-- drain timer had expired. It is the context's error before the loop only where the context has
-- ended.
pub forward_ssh-closes :
    {s : Direct}
    → Reach s
    → (s.phase ≡ opening
        → s.context_done ≡ true
        → (s.client_closed ≡ true)
          ⊎ ((s' : Direct) × (step func_starts s ≡ some s'))
          ⊎ ((s' : Direct) × (step func_closes s ≡ some s') × (s'.client_closed ≡ true)))
      × (s.phase ≡ looping
          → (s.client_closed ≡ false) × (s.conn_closed ≡ false) × (step func_starts s ≡ none))
      × (s.phase ≡ returned
          → (s.client_closed ≡ s.has_client)
            × (s.conn_closed ≡ s.has_conn)
            × (step func_starts s ≡ none)
            × (s.answer ≢ none))
      × ((o : ForwardSsh.Outcome) → s.answer ≡ some (looped o) → IsDue s.forwarding o)
      × (s.answer ≡ some cancelled → s.context_done ≡ true)
unfolding step Closing
forward_ssh-closes {s} r =
    let inv = Reach-Inv r in
    (
      interrupted s inv,
      λ p. elim (after_cases s.after) [
        | inl e ↦ absurd (ground arith)
        | inr (inl e) ↦ absurd (ground arith)
        | inr (inr (inl e)) ↦ absurd (ground arith)
        | inr (inr (inr (x, y, z))) ↦ (ground arith, ground arith, ground arith)
      ],
      λ p. (ground arith, ground arith, ground arith, inv.answered (ground arith)),
      λ o a. result-IsDue (loop_reached r) o (inv.has_looped o a),
      inv.was_cancelled,
    )
