-- ===== src/Server/Draining/Ordered.antt =====
-- The sizes that the executor receives of a session's queue.
use mathlib.Core.List.{Sublist, sublist-append_left}
use mathlib.Core.List.Sublist
use voidshell.Prelude.{
  ℕ, ◌≤◌, ◌≡◌, refl, Option, none, some, List, [], ◌∷◌, ◌++◌, arith, length, append-nil,
  append_assoc, length-append, subst, sym, ap, ◌∙◌, inl, inr, Bool-cases, codes, text_eq,
}
use voidshell.Server.Wire.{Request, Wire, WindowChange}
use voidshell.Server.Session.{
  Terminal, TerminalSize, TerminalSizeQueue, push, next, stop, queue_capacity, Received, size,
  resize, drain_request,
}
use voidshell.Server.Session
use voidshell.Server.Session.Sizes.{push_cases, next-got, got}
use voidshell.Server.Draining.{
  Main, pushing, launching, running, closing, joining, stopping, cancelling, closing_again,
  returned, Drainer, unborn, waiting, cancels, closes, ended, handling, Draining, main_step, asks,
  size_of, size_in, drainer_step, read_size, step, Move, on_main, reads, context_ends, on_drainer,
  Reach, start, later,
}

-- What was received and waits are sizes that were asked for, in their order; all of them, where
-- they fit into the queue.
pub record InOrder (got queued asked : List TerminalSize) : Type 0 where
  pub order : Sublist (got ++ queued) asked
  pub kept : length asked ≤ queue_capacity → got ++ queued ≡ asked

push-InOrder :
    (cols rows : ℕ) (q : TerminalSizeQueue) (got asked : List TerminalSize)
    → InOrder got q.queued asked
    → InOrder got (push cols rows q).queued (asked ++ size_of cols rows ∷ [])
push-InOrder cols rows q got asked inv =
    let s = size_of cols rows in
    elim (push_cases cols rows q) [
      | inl (room, e) ↦
          subst (λ l. InOrder got l (asked ++ s ∷ [])) (sym e)
            (record {
              order =
                  subst (λ l. Sublist l (asked ++ s ∷ [])) (append_assoc got q.queued (s ∷ []))
                    (Sublist.append inv.order (Sublist.refl (s ∷ [])));
              kept = λ h.
                  sym (append_assoc got q.queued (s ∷ []))
                  ∙ ap (λ l. l ++ s ∷ []) (inv.kept (omega (arith, length-append asked (s ∷ []))));
            })
      | inr (full, e) ↦ rw e (record {
        order = Sublist.trans inv.order (sublist-append_left asked (s ∷ []));
        kept = λ h.
            let same = inv.kept (omega (arith, length-append asked (s ∷ []))) in
            absurd (
              omega
                (arith, ap length same, length-append got q.queued, length-append asked (s ∷ [])));
      })
    ]

next-InOrder :
    (q : TerminalSizeQueue) (all asked : List TerminalSize)
    → InOrder all q.queued asked
    → InOrder (all ++ got (next q).1) (next q).0.queued asked
next-InOrder q all asked inv =
    let split =
      append_assoc all (got (next q).1) (next q).0.queued ∙ ap (λ l. all ++ l) (sym (next-got q)) in
    record {
      order = subst (λ l. Sublist l asked) (sym split) inv.order;
      kept = λ h. split ∙ inv.kept h;
    }

drain-InOrder :
    (wire : Wire) (req : Request) (q : TerminalSizeQueue) (all asked : List TerminalSize)
    → InOrder all q.queued asked
    → InOrder all (drain_request wire req q).0.queued (asked ++ asks wire req)
unfolding drain_request asks resize
drain-InOrder wire req q all asked inv =
    elim (Bool-cases (text_eq req.kind (codes "window-change"))) [
      | inl e ↦ rw e (resized (wire.read_window req.payload))
      | inr e ↦ rw e (kept_as_is)
    ]
  where
    kept_as_is : InOrder all q.queued (asked ++ [])
    kept_as_is = rw (append-nil asked) inv

    resized :
        (msg : Option WindowChange) → InOrder all (resize wire msg q).queued (asked ++ size_in msg)
    resized none = kept_as_is
    resized (some msg) = push-InOrder msg.columns msg.rows q all asked inv

some_is : {x y : Draining} → some x ≡ some y → x ≡ y
some_is h = cc

abbrev pub Ordered : Draining → Type 0
Ordered s = InOrder s.resized s.sizes.queued s.asked

main_step-Ordered :
    (t : Terminal) (s s' : Draining) (main : Main)
    → Ordered s
    → main_step t s main ≡ some s'
    → Ordered s'
unfolding main_step stop
main_step-Ordered t s s' pushing inv h =
    subst Ordered (some_is h) (push-InOrder t.cols t.rows s.sizes s.resized s.asked inv)
main_step-Ordered t s s' launching inv h = subst Ordered (some_is h) inv
main_step-Ordered t s s' running inv h = subst Ordered (some_is h) inv
main_step-Ordered t s s' closing inv h = subst Ordered (some_is h) inv
main_step-Ordered t s s' joining inv h = ground arith
main_step-Ordered t s s' stopping inv h = ground arith
main_step-Ordered t s s' cancelling inv h = subst Ordered (some_is h) inv
main_step-Ordered t s s' closing_again inv h = subst Ordered (some_is h) inv
main_step-Ordered t s s' returned inv h = cc

drainer_step-Ordered :
    (wire : Wire) (req : Option Request) (s s' : Draining) (d : Drainer)
    → Ordered s
    → drainer_step wire req s d ≡ some s'
    → Ordered s'
unfolding drainer_step
drainer_step-Ordered wire req s s' unborn inv h = cc
drainer_step-Ordered wire none s s' waiting inv h = subst Ordered (some_is h) inv
drainer_step-Ordered wire (some r) s s' waiting inv h = subst Ordered (some_is h) inv
drainer_step-Ordered wire req s s' (handling r) inv h =
    let more = drain-InOrder wire r s.sizes s.resized s.asked inv in ground arith
drainer_step-Ordered wire req s s' cancels inv h = subst Ordered (some_is h) inv
drainer_step-Ordered wire req s s' closes inv h = ground arith
drainer_step-Ordered wire req s s' ended inv h = cc

read_size-Ordered :
    (s s' : Draining) (q : TerminalSizeQueue) (r : Received)
    → InOrder (s.resized ++ got r) q.queued s.asked
    → read_size s (q, r) ≡ some s'
    → Ordered s'
read_size-Ordered s s' q (size z) inv h = subst Ordered (some_is h) inv
read_size-Ordered s s' q Session.ended inv h =
    subst Ordered (some_is h) (subst (λ l. InOrder l q.queued s.asked) (append-nil s.resized) inv)
read_size-Ordered s s' q Session.waits inv h = cc

step-Ordered :
    (wire : Wire) (t : Terminal) (m : Move) (s s' : Draining)
    → Ordered s
    → step wire t m s ≡ some s'
    → Ordered s'
unfolding step
step-Ordered wire t on_main s s' inv h = main_step-Ordered t s s' s.main inv h
step-Ordered wire t (on_drainer req) s s' inv h = drainer_step-Ordered wire req s s' s.drainer inv h
step-Ordered wire t reads s s' inv h =
    read_size-Ordered s s' (next s.sizes).0 (next s.sizes).1
      (next-InOrder s.sizes s.resized s.asked inv) h
step-Ordered wire t context_ends s s' inv h = subst Ordered (some_is h) inv

pub Reach-Ordered : {wire : Wire} {t : Terminal} {s : Draining} → Reach wire t s → Ordered s
Reach-Ordered start = record { order = Sublist.refl []; kept = λ h. refl }
Reach-Ordered (later m r h) = step-Ordered _ _ m _ _ (Reach-Ordered r) h
