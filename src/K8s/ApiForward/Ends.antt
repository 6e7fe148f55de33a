-- ===== src/K8s/ApiForward/Ends.antt =====
-- The ends of streams among the events that `Forward` receives.
use voidshell.Prelude.{Option, List, [], ◌∷◌, ◌++◌, Text, ◌≡◌, refl, ap}
use voidshell.K8s.Forward.{Event, context_ended, local_failed, remote_done, errors_read}

-- The ends of the output and of the error stream among some events.
unfoldable pub remotes : List Event → List (Option Text)
remotes [] = []
remotes (remote_done e ∷ events) = e ∷ remotes events
remotes (_ ∷ events) = remotes events

unfoldable pub reads : List Event → List (Text × Option Text)
reads [] = []
reads (errors_read m f ∷ events) = (m, f) ∷ reads events
reads (_ ∷ events) = reads events

pub remotes-append : (a b : List Event) → remotes (a ++ b) ≡ remotes a ++ remotes b
unfolding remotes
remotes-append [] b = refl
remotes-append (remote_done e ∷ a) b = ap (λ l. e ∷ l) (remotes-append a b)
remotes-append (context_ended ∷ a) b = remotes-append a b
remotes-append (local_failed e ∷ a) b = remotes-append a b
remotes-append (errors_read m f ∷ a) b = remotes-append a b

pub reads-append : (a b : List Event) → reads (a ++ b) ≡ reads a ++ reads b
unfolding reads
reads-append [] b = refl
reads-append (errors_read m f ∷ a) b = ap (λ l. (m, f) ∷ l) (reads-append a b)
reads-append (context_ended ∷ a) b = reads-append a b
reads-append (local_failed e ∷ a) b = reads-append a b
reads-append (remote_done e ∷ a) b = reads-append a b
