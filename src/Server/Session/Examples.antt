-- ===== src/Server/Session/Examples.antt =====
-- A queue with two sizes, and a session that asks for a terminal and a script.
use voidshell.Prelude.{◌≡◌, refl, some, true, false, List, [], ◌∷◌, ◌++◌, codes, text_eq}
use voidshell.Server.Wire.{Request, contains_nul}
use voidshell.Server.Session.{
  Terminal, no_terminal, in_shell, serve_requests, new_terminal_size_queue, handle_request,
  handle_pty, read_exec, take_pty, push, next,
}
use voidshell.Server.Session.Sizes.{Use, pushes, receives, play}
use voidshell.Server.Session.Asks.{IsServed}
use voidshell.Server.Session.First.{serve_requests-IsServed}
use voidshell.Server.Examples.{wire}

abbrev resized : List Use
resized = pushes 80 24 ∷ receives ∷ pushes 65636 50 ∷ []

resized_test :
    (play resized new_terminal_size_queue).1 ++ (play resized new_terminal_size_queue).0.queued
    ≡ record { width = 80; height = 24 } ∷ record { width = 100; height = 50 } ∷ []
unfolding play push next
resized_test = refl

-- The window change comes too early, and the second `exec` too late.
abbrev two_scripts : List Request
two_scripts =
    record { kind = codes "window-change"; want_reply = false; payload = [] }
    ∷ record { kind = codes "pty-req"; want_reply = true; payload = codes "xterm" }
    ∷ record { kind = codes "exec"; want_reply = true; payload = codes "ls" }
    ∷ record { kind = codes "exec"; want_reply = true; payload = codes "id" }
    ∷ []

abbrev xterm : Terminal
xterm = record { tty = true; term = codes "xterm"; cols = 100; rows = 40 }

first_script_runs :
    (serve_requests wire two_scripts no_terminal).started
    ≡ some (
      in_shell (codes "ls"),
      xterm,
      record { kind = codes "exec"; want_reply = true; payload = codes "id" } ∷ [],
    )
unfolding serve_requests handle_request handle_pty take_pty read_exec text_eq contains_nul
first_script_runs = refl

serve_requests-IsServed_example :
    IsServed wire [] two_scripts (serve_requests wire two_scripts no_terminal).started
serve_requests-IsServed_example = serve_requests-IsServed wire two_scripts
