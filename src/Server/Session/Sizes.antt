-- ===== src/Server/Session/Sizes.antt =====
-- What the reader of a queue of terminal sizes gets.
use mathlib.Core.List.{Sublist, sublist-cons_self}
use mathlib.Core.List.Sublist
use mathlib.Core.Path.{subst₂}
use voidshell.Prelude.{
  ℕ, ◌+◌, ◌≤◌, ◌≡◌, refl, List, [], ◌∷◌, ◌++◌, append-nil, append_assoc, arith, length,
  length-append, sym, ◌∙◌, ◌⊎◌, ◌<◌, ltb, true, false, Bool-cases, inl, inr, subst, ap, Bool,
}
use voidshell.Server.Session.{
  TerminalSize, TerminalSizeQueue, Received, size, ended, waits, u16, queue_capacity, push, next,
  new_terminal_size_queue,
}

-- What happens to a queue: a size is pushed, or the reader receives.
pub data Use : Type 0 where
  pushes : (cols rows : ℕ) → Use
  receives : Use

abbrev pub got : Received → List TerminalSize
got (size s) = s ∷ []
got ended = []
got waits = []

-- The queue afterwards, and what was received.
unfoldable pub play : List Use → TerminalSizeQueue → TerminalSizeQueue × List TerminalSize
play [] q = (q, [])
play (pushes cols rows ∷ uses) q = play uses (push cols rows q)
play (receives ∷ uses) q =
    let (q', r) = next q in let (q'', sizes) = play uses q' in (q'', got r ++ sizes)

unfoldable pub offered : List Use → List TerminalSize
offered [] = []
offered (pushes cols rows ∷ uses) = record { width = u16 cols; height = u16 rows } ∷ offered uses
offered (receives ∷ uses) = offered uses

pub push_cases :
    (cols rows : ℕ) (q : TerminalSizeQueue)
    → (length q.queued < queue_capacity)
        × ((push cols rows q).queued
            ≡ q.queued ++ record { width = u16 cols; height = u16 rows } ∷ [])
      ⊎ (queue_capacity ≤ length q.queued) × (push cols rows q ≡ q)
unfolding push
push_cases cols rows q = elim (Bool-cases (ltb (length q.queued) queue_capacity)) [
  | inl e ↦ inl (ground arith, rw e refl)
  | inr e ↦ inr (ground arith, rw e refl)
]

pub next-got : (q : TerminalSizeQueue) → q.queued ≡ got (next q).1 ++ (next q).0.queued
unfolding next
next-got q = by_queue q.queued q.closed
  where
    by_queue :
        (l : List TerminalSize) (closed : Bool)
        → l
          ≡ got (next (record { queued = l; closed = closed })).1
            ++ (next (record { queued = l; closed = closed })).0.queued
    by_queue [] true = refl
    by_queue [] false = refl
    by_queue (s ∷ rest) closed = refl

-- What the reader received, and what is left for it, are sizes that were pushed, in their order.
play-Sublist :
    (uses : List Use) (q : TerminalSizeQueue)
    → Sublist ((play uses q).1 ++ (play uses q).0.queued) (q.queued ++ offered uses)
unfolding play offered
play-Sublist [] q = subst (Sublist q.queued) (sym (append-nil q.queued)) (Sublist.refl q.queued)
play-Sublist (pushes cols rows ∷ uses) q =
    let more = play-Sublist uses (push cols rows q) in
    let s : TerminalSize = record { width = u16 cols; height = u16 rows } in
    elim (push_cases cols rows q) [
      | inl (room, e) ↦
          subst (Sublist _)
            (ap (λ l. l ++ offered uses) e ∙ append_assoc q.queued (s ∷ []) (offered uses)) more
      | inr (full, e) ↦ Sublist.trans more (
          subst (λ l. Sublist (l ++ offered uses) (q.queued ++ s ∷ offered uses))
            (ap (λ (x : TerminalSizeQueue). x.queued) (sym e))
            (Sublist.append (Sublist.refl q.queued) (sublist-cons_self s (offered uses))))
    ]
play-Sublist (receives ∷ uses) q =
    let (q', r) = next q in
    let (q'', sizes) = play uses q' in
    subst₂ Sublist (sym (append_assoc (got r) sizes q''.queued))
      (sym (append_assoc (got r) q'.queued (offered uses))
        ∙ ap (λ l. l ++ offered uses) (sym (next-got q)))
      (Sublist.append (Sublist.refl (got r)) (play-Sublist uses q'))

play_bounded :
    (uses : List Use) (q : TerminalSizeQueue)
    → length q.queued ≤ queue_capacity
    → length (play uses q).0.queued ≤ queue_capacity
unfolding play
play_bounded [] q h = h
play_bounded (pushes cols rows ∷ uses) q h =
    play_bounded uses (push cols rows q) (elim (push_cases cols rows q) [
      | inl (room, e) ↦ rw e (
          omega
            (arith, length-append q.queued (record { width = u16 cols; height = u16 rows } ∷ [])))
      | inr (full, e) ↦ rw e h
    ])
play_bounded (receives ∷ uses) q h =
    play_bounded uses (next q).0
      (omega (arith, ap length (next-got q), length-append (got (next q).1) (next q).0.queued))

-- Where no size finds the queue full, none is lost.
play_complete :
    (uses : List Use) (q : TerminalSizeQueue)
    → length q.queued + length (offered uses) ≤ queue_capacity
    → (play uses q).1 ++ (play uses q).0.queued ≡ q.queued ++ offered uses
unfolding play offered
play_complete [] q h = sym (append-nil q.queued)
play_complete (pushes cols rows ∷ uses) q h =
    let s : TerminalSize = record { width = u16 cols; height = u16 rows } in
    elim (push_cases cols rows q) [
      | inl (room, e) ↦
          play_complete uses (push cols rows q)
            (rw e (omega (arith, length-append q.queued (s ∷ []))))
          ∙ ap (λ l. l ++ offered uses) e
          ∙ append_assoc q.queued (s ∷ []) (offered uses)
      | inr (full, e) ↦ absurd (omega arith)
    ]
play_complete (receives ∷ uses) q h =
    let (q', r) = next q in
    let (q'', sizes) = play uses q' in
    let split = next-got q in
    append_assoc (got r) sizes q''.queued
    ∙ ap (λ l. got r ++ l)
        (play_complete uses q' (omega (arith, ap length split, length-append (got r) q'.queued)))
    ∙ sym (append_assoc (got r) q'.queued (offered uses))
    ∙ ap (λ l. l ++ offered uses) (sym split)

-- The reader of a queue of terminal sizes receives sizes that were pushed, cut to 16 bits, in their
-- order, and what is left for it comes after them; never more than 16 are left. If at most 16 are
-- pushed, none is lost.
play-new_queue :
    (uses : List Use)
    → Sublist
        ((play uses new_terminal_size_queue).1 ++ (play uses new_terminal_size_queue).0.queued)
        (offered uses)
      × (length (play uses new_terminal_size_queue).0.queued ≤ queue_capacity)
      × (length (offered uses) ≤ queue_capacity
          → (play uses new_terminal_size_queue).1 ++ (play uses new_terminal_size_queue).0.queued
            ≡ offered uses)
play-new_queue uses = (
  play-Sublist uses new_terminal_size_queue,
  play_bounded uses new_terminal_size_queue (omega arith),
  λ h. play_complete uses new_terminal_size_queue (omega arith),
)
