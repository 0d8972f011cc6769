-- ===== src/Server/Counting.antt =====
-- Counting the operations of one acceptor of a `Server` (src/server.cpp).
use lib_native_streaming.Common.{ℕ, ◌+◌, ◌≡◌, ◌≤◌, map, map-append, true, List, ◌∷◌, ◌++◌, arith}
use lib_native_streaming.Server.{Acceptor, v4, v6, Server, Effect, is_open}
use lib_native_streaming.Server.System.{System, accepts, reads, after, same, count}
use lib_native_streaming.Server.Handlers.{restart}
use lib_native_streaming.Server.Start.{count-append}

-- The operations of acceptor `b` that are in flight: accepting, or reading a request.
abbrev pub in_flight : Acceptor → System → ℕ
in_flight b s = count b s.accepting + count b (map (λ p. p.0) s.reading)

abbrev pub total : Acceptor → System → ℕ
total b s = in_flight b s + count b s.ended

pub count-middle :
    (b a : Acceptor) (xs ys : List Acceptor)
    → count b (xs ++ a ∷ ys) ≡ same b a + count b (xs ++ ys)
count-middle b a xs ys = omega (arith, count-append b xs (a ∷ ys), count-append b xs ys)

pub restarts : (b a : Acceptor) (s : Server) → count b (accepts (restart a s)) ≤ same b a
restarts v4 v4 s = ground arith
restarts v4 v6 s = ground arith
restarts v6 v4 s = ground arith
restarts v6 v6 s = ground arith

pub restarts_open :
    (b a : Acceptor) (s : Server) → is_open b s ≡ true → count b (accepts (restart a s)) ≡ same b a
restarts_open v4 v4 s h = ground arith
restarts_open v4 v6 s h = ground arith
restarts_open v6 v4 s h = ground arith
restarts_open v6 v6 s h = ground arith

abbrev pub readers : List (Acceptor × ℕ) → List Acceptor
readers = map (λ p. p.0)

count-readers :
    (b : Acceptor) (xs ys : List (Acceptor × ℕ))
    → count b (readers (xs ++ ys)) ≡ count b (readers xs) + count b (readers ys)
count-readers b xs ys = rw map-append (count-append b (readers xs) (readers ys))

pub readers-middle :
    (b a : Acceptor) (st : ℕ) (xs ys : List (Acceptor × ℕ))
    → count b (readers (xs ++ (a, st) ∷ ys)) ≡ same b a + count b (readers (xs ++ ys))
readers-middle b a st xs ys =
    omega (arith, count-readers b xs ((a, st) ∷ ys), count-readers b xs ys)

-- The operations of `b` in a system to which the effects of a handler are added.
pub total-after :
    {A : Type 0} (b : Acceptor) (s : System) (r : A × Server × List Effect)
    → total b (after s r) ≡ total b s + count b (accepts r.2) + count b (readers (reads r.2))
total-after b s r =
    omega (arith, count-append b s.accepting (accepts r.2), count-readers b s.reading (reads r.2))
