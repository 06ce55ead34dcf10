-- ===== src/TcpSocket/Memory.antt =====
-- The memory of common/tcp_socket.cc: what is allocated and written.
use h9d.Prelude.{
  ℕ, zero, suc, ◌+◌, ◌-◌, ◌≤◌, ◌≡◌, refl, arith, List, ◌++◌, some, length, take, drop,
  length-append, length-take, length-drop,
}
use h9d.TcpSocket.{fresh, realloc, store}

pub length-fresh : (garbage : ℕ → ℕ) (n : ℕ) → length (fresh garbage n) ≡ n
unfolding fresh
length-fresh garbage zero = refl
length-fresh garbage (suc n) = omega (arith, length-fresh garbage n)

pub length-realloc :
    (garbage : ℕ → ℕ) (n : ℕ) (mem : List ℕ) → length mem ≤ n → length (realloc garbage n mem) ≡ n
unfolding realloc
length-realloc garbage n mem more = omega (
  arith,
  length-append mem (fresh garbage (n - length mem)),
  length-fresh garbage (n - length mem),
)

-- A write that fits is made.
pub store_fits :
    (off : ℕ) (bs mem : List ℕ)
    → off + length bs ≤ length mem
    → store off bs mem ≡ some (take off mem ++ (bs ++ drop (off + length bs) mem))
unfolding store
store_fits off bs mem fits = ground arith

pub length-stored :
    (off : ℕ) (bs mem : List ℕ)
    → off + length bs ≤ length mem
    → length (take off mem ++ (bs ++ drop (off + length bs) mem)) ≡ length mem
length-stored off bs mem fits = omega (
  arith,
  length-append (take off mem) (bs ++ drop (off + length bs) mem),
  length-append bs (drop (off + length bs) mem),
  length-take off mem,
  length-drop (off + length bs) mem,
)
