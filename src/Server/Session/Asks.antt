-- ===== src/Server/Session/Asks.antt =====
-- What a request asks a session to run, and which terminal the requests before it leave.
use voidshell.Server.Wire.{Request, Wire, PtyRequest, contains_nul, is_sftp}
use voidshell.Server.Session.{
  Terminal, no_terminal, Program, Handled, with_terminal, run_program, refused, ignored, take_pty,
  handle_pty, or_refused, handle_request, shell, read_exec, in_shell, is_sftp, sftp_script,
}
use voidshell.Prelude.{
  ◌≡◌, ◌≢◌, refl, Bool, false, ◌&&◌, Option, none, some, List, [], ◌∷◌, ◌++◌, Text, codes, text_eq,
  if◌then◌else◌, arith, ap, ◌∙◌, Bool-cases, inl, inr, ◌⊎◌, subst, not, ℕ, text_eq→eq,
}

list_cases : (s : Text) → (s ≡ []) ⊎ ((c : ℕ) × (rest : Text) × (s ≡ c ∷ rest))
list_cases [] = inl refl
list_cases (c ∷ s) = inr (c, s, refl)

module _ (wire : Wire) where
  -- The message of a `pty-req` that can be read and has no zero in its terminal's name.
  abbrev pub good_pty : Option PtyRequest → Option PtyRequest
  good_pty none = none
  good_pty (some msg) = if contains_nul msg.term then none else some msg

  -- The first such message among some requests.
  unfoldable pub first_pty : List Request → Option PtyRequest
  first_pty [] = none
  first_pty (req ∷ reqs) =
      let rest = first_pty reqs in
      if text_eq req.kind (codes "pty-req")
      then elim (good_pty (wire.read_pty req.payload)) [ none ↦ rest | some msg ↦ some msg ]
      else rest

  abbrev pub terminal_of : Option PtyRequest → Terminal
  terminal_of none = no_terminal
  terminal_of (some msg) = take_pty msg no_terminal

  -- What a request asks to run, in a session with or without a terminal.
  pub data Asks (req : Request) (tty : Bool) : Program → Type 0 where
    shell_asked : req.kind ≡ codes "shell" → req.payload ≡ [] → Asks req tty shell
    exec_asked :
        (script : Text)
        → req.kind ≡ codes "exec"
        → wire.read_text req.payload ≡ some script
        → contains_nul script ≡ false
        → Asks req tty (in_shell script)
    sftp_asked :
        req.kind ≡ codes "subsystem"
        → wire.read_text req.payload ≡ some (codes "sftp")
        → tty ≡ false
        → Asks req tty (in_shell sftp_script)

  -- No request of a list asks for a program, each with the terminal that the ones before it leave.
  unfoldable pub Idle : List Request → List Request → Type 0
  Idle before [] = Unit
  Idle before (req ∷ reqs) =
      ((p : Program) → ¬ Asks req (terminal_of (first_pty before)).tty p)
      × Idle (before ++ req ∷ []) reqs

  -- Of some requests that come after earlier ones, the first that asks for a program, with the
  -- terminal of the first good `pty-req` before it.
  pub record IsFirst (earlier reqs : List Request) (p : Program) (t : Terminal)
      (rest : List Request) : Type 0 where
    pub before : List Request
    pub req : Request
    pub split : reqs ≡ before ++ req ∷ rest
    pub terminal : t ≡ terminal_of (first_pty (earlier ++ before))
    pub asks : Asks req t.tty p
    pub idle : Idle earlier before

  abbrev pub IsServed :
      List Request → List Request → Option (Program × Terminal × List Request) → Type 0
  IsServed earlier reqs none = Idle earlier reqs
  IsServed earlier reqs (some (p, t, rest)) = IsFirst earlier reqs p t rest

  abbrev pub or_else : Option PtyRequest → Option PtyRequest → Option PtyRequest
  or_else none o = o
  or_else (some msg) o = some msg

  pub first_pty_snoc :
      (before : List Request) (req : Request)
      → first_pty (before ++ req ∷ []) ≡ or_else (first_pty before) (first_pty (req ∷ []))
  unfolding first_pty
  first_pty_snoc [] req = refl
  first_pty_snoc (r ∷ before) req = ground (arith, first_pty_snoc before req)

  abbrev pub next_terminal : Handled → Terminal → Terminal
  next_terminal (with_terminal t') t = t'
  next_terminal (run_program p) t = t
  next_terminal refused t = t
  next_terminal ignored t = t

  pub next_terminal-first_pty :
      (o : Option PtyRequest) (req : Request)
      → next_terminal (handle_request wire req (terminal_of o)) (terminal_of o)
        ≡ terminal_of (or_else o (first_pty (req ∷ [])))
  unfolding first_pty handle_request handle_pty take_pty
  next_terminal-first_pty none req = ground arith
  next_terminal-first_pty (some msg) req = ground arith

  exec_of_read :
      (req : Request) (tty : Bool) (p : Program) (o : Option Text)
      → req.kind ≡ codes "exec"
      → wire.read_text req.payload ≡ o
      → or_refused (read_exec o) ≡ run_program p
      → Asks req tty p
  unfolding read_exec
  exec_of_read req tty p none k e h = cc
  exec_of_read req tty p (some script) k e h = elim (Bool-cases (contains_nul script)) [
    | inl n ↦ absurd (let q = rw n at h in cc)
    | inr n ↦
        let q : in_shell script ≡ p = let q = rw n at h in cc in
        subst (Asks req tty) q (exec_asked script k e n)
  ]

  sftp_of_read :
      (req : Request) (t : Terminal) (p : Program) (o : Option Text)
      → req.kind ≡ codes "subsystem"
      → wire.read_text req.payload ≡ o
      → (if is_sftp o && not t.tty then run_program (in_shell sftp_script) else refused)
        ≡ run_program p
      → Asks req t.tty p
  unfolding is_sftp
  sftp_of_read req t p none k e h = cc
  sftp_of_read req t p (some name) k e h =
      elim (Bool-cases (text_eq name (codes "sftp") && not t.tty)) [
        | inl n ↦
            let q : in_shell sftp_script ≡ p = let q = rw n at h in cc in
            subst (Asks req t.tty) q (
              sftp_asked k (e ∙ ap some (text_eq→eq name (codes "sftp") (ground arith)))
                (ground arith))
        | inr n ↦ absurd (let q = rw n at h in cc)
      ]

  not_pty : (o : Option PtyRequest) (t : Terminal) (p : Program) → handle_pty o t ≢ run_program p
  unfolding handle_pty
  not_pty none t p h = cc
  not_pty (some msg) t p h = ground arith

  pub Asks-of_handled :
      (req : Request) (t : Terminal) (p : Program)
      → handle_request wire req t ≡ run_program p
      → Asks req t.tty p
  unfolding handle_request
  Asks-of_handled req t p h = elim (Bool-cases (text_eq req.kind (codes "pty-req"))) [
    | inl e ↦ absurd (not_pty (wire.read_pty req.payload) t p (rw e at h))
    | inr e1 ↦ elim (Bool-cases (text_eq req.kind (codes "shell"))) [
      | inl e ↦ elim (list_cases req.payload) [
        | inl q ↦
            subst (Asks req t.tty) (let z = rw (e1, e, q) at h in cc)
              (shell_asked (text_eq→eq _ _ e) q)
        | inr (x, xs, q) ↦ absurd (let z = rw (e1, e, q) at h in cc)
      ]
      | inr e2 ↦ elim (Bool-cases (text_eq req.kind (codes "exec"))) [
        | inl e ↦
            exec_of_read req t.tty p (wire.read_text req.payload) (text_eq→eq _ _ e) refl
              (rw (e1, e2, e) at h)
        | inr e3 ↦ elim (Bool-cases (text_eq req.kind (codes "subsystem"))) [
          | inl e ↦
              sftp_of_read req t p (wire.read_text req.payload) (text_eq→eq _ _ e) refl
                (rw (e1, e2, e3, e) at h)
          | inr e4 ↦ absurd (let z = rw (e1, e2, e3, e4) at h in cc)
        ]
      ]
    ]
  ]

  pub handled-of_Asks :
      (req : Request) (t : Terminal) (p : Program)
      → Asks req t.tty p
      → handle_request wire req t ≡ run_program p
  unfolding handle_request read_exec is_sftp text_eq
  handled-of_Asks req t p (shell_asked k e) = rw (k, e) refl
  handled-of_Asks req t p (exec_asked script k e n) = rw (k, e, n) refl
  handled-of_Asks req t p (sftp_asked k e n) = rw (k, e, n) refl
