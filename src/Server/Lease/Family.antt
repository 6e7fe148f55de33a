-- ===== src/Server/Lease/Family.antt =====
-- Sums over the callers, and what one caller's step changes in them.
use native.Mathlib.Decide.{dec_lt}
use voidshell.Prelude.{update, ℕ, zero, suc, ◌+◌, ◌≤◌, ◌<◌, ◌≡◌, refl, ◌≢◌, arith}
use voidshell.Server.Lease.{Pc}

-- The weights of the callers below `n`.
unfoldable pub total : (ℕ → Pc → ℕ) → ℕ → (ℕ → Pc) → ℕ
total w zero pc = 0
total w (suc n) pc = w n (pc n) + total w n pc

total-update_above :
    (w : ℕ → Pc → ℕ) (n : ℕ) (pc : ℕ → Pc) (i : ℕ) (p : Pc)
    → n ≤ i
    → total w n (update pc i p) ≡ total w n pc
unfolding total update
total-update_above w zero pc i p h = refl
total-update_above w (suc n) pc i p h = ground (arith, total-update_above w n pc i p)

pub total-update :
    (w : ℕ → Pc → ℕ) (n : ℕ) (pc : ℕ → Pc) (i : ℕ) (p : Pc)
    → i < n
    → total w n (update pc i p) + w i (pc i) ≡ total w n pc + w i p
unfolding total update
total-update w zero pc i p h = elim h [ ]
total-update w (suc n) pc i p h =
    ground (arith, total-update w n pc i p, total-update_above w n pc i p)

pub le-total : (w : ℕ → Pc → ℕ) (n : ℕ) (pc : ℕ → Pc) (i : ℕ) → i < n → w i (pc i) ≤ total w n pc
unfolding total
le-total w zero pc i h = elim h [ ]
le-total w (suc n) pc i h = ground (arith, le-total w n pc i)

pub add-le-total :
    (w : ℕ → Pc → ℕ) (n : ℕ) (pc : ℕ → Pc) (i j : ℕ)
    → i < n
    → j < n
    → i ≢ j
    → w i (pc i) + w j (pc j) ≤ total w n pc
unfolding total
add-le-total w zero pc i j h k d = elim h [ ]
add-le-total w (suc n) pc i j h k d =
    ground (arith, le-total w n pc i, le-total w n pc j, add-le-total w n pc i j)

pub total_mono :
    (v w : ℕ → Pc → ℕ) (n : ℕ) (pc : ℕ → Pc)
    → ((i : ℕ) → i < n → v i (pc i) ≤ w i (pc i))
    → total v n pc ≤ total w n pc
unfolding total
total_mono v w zero pc h = omega arith
total_mono v w (suc n) pc h =
    omega (arith, h n (omega arith), total_mono v w n pc (λ i lt. h i (omega arith)))

pub total_pos :
    (w : ℕ → Pc → ℕ) (n : ℕ) (pc : ℕ → Pc) → 0 < total w n pc → (i : ℕ) × (i < n) × (0 < w i (pc i))
unfolding total
total_pos w zero pc h = elim h [ ]
total_pos w (suc n) pc h = elim (dec_lt 0 (w n (pc n))) [
  | yes here ↦ (n, omega arith, here)
  | no none_here ↦ let (i, lt, pos) = total_pos w n pc (omega arith) in (i, omega arith, pos)
]

pub total-eq-zero :
    (w : ℕ → Pc → ℕ) (n : ℕ) (pc : ℕ → Pc) → ((i : ℕ) → w i (pc i) ≡ 0) → total w n pc ≡ 0
unfolding total
total-eq-zero w zero pc h = refl
total-eq-zero w (suc n) pc h = omega (arith, h n, total-eq-zero w n pc h)
