-- ===== src/Server/Chains.antt =====
-- What each step of a `Server` (src/server.cpp) does to the operations of one acceptor.
use lib_native_streaming.Common.{
  ℕ, suc, ◌+◌, ◌≡◌, ◌≤◌, refl, sym, ◌∙◌, subst, Bool, true, false, ◌||◌, some, List, [], ◌∷◌, ◌++◌,
  arith,
}
use lib_native_streaming.Common.Errors.{ErrorCode, success, operation_aborted, failure}
use lib_native_streaming.Common.Connections.{HttpFields}
use lib_native_streaming.Server.{Acceptor, v4, v6, Server, Effect, is_open, HttpRead, start, Setup}
use lib_native_streaming.Server.System.{System, accepts, reads, after, same, count, aborted_only}
use lib_native_streaming.Server.Counting.{
  total, count-middle, restarts, restarts_open, readers, readers-middle, total-after,
}
use lib_native_streaming.Server.Handlers.{reads-restart, restart, accept_effects}
use lib_native_streaming.Server.Endings.{Stops}
use lib_native_streaming.Server.Start.{usable, to_nat, count-append, start_lem}

pub record Inv (b : Acceptor) (s : System) : Type 0 where
  pub at_most : total b s ≤ count b s.starts
  pub while_open : is_open b s.server ≡ true → 1 ≤ total b s
  pub open_alive : is_open b s.server ≡ true → s.alive ≡ true

pub true_ne_false : true ≡ false → ⊥
true_ne_false e = cc

pub some_injective : {A : Type 0} {x y : A} → some x ≡ some y → x ≡ y
some_injective e = cc

-- A step that opens no acceptor and starts no more than it completes, nor less where it stays open.
keep :
    (b : Acceptor) (s u : System)
    → Inv b s
    → (is_open b u.server ≡ true → is_open b s.server ≡ true)
    → u.alive ≡ s.alive
    → count b u.starts ≡ count b s.starts
    → total b u ≤ total b s
    → (is_open b s.server ≡ true → total b u ≡ total b s)
    → Inv b u
keep b s u inv o a n l g = record {
  open_alive = λ h. a ∙ inv.open_alive (o h);
  at_most = omega (arith, inv.at_most, n);
  while_open = λ h. omega (arith, inv.while_open (o h), g (o h));
}

module _ (b a : Acceptor) (s : System) (xs ys : List Acceptor) (e : s.accepting ≡ xs ++ a ∷ ys)
    (inv : Inv b s) where
  pub before : count b s.accepting ≡ same b a + count b (xs ++ ys)
  before = rw e (count-middle b a xs ys)

  abbrev pub less : ErrorCode → System
  less ec = record s {
    accepting = xs ++ ys;
    next_stream = suc s.next_stream;
    ended = aborted_only ec a ++ s.ended;
  }

  abbrev result : ErrorCode → Unit {0} × Server × List Effect
  result ec = (tt, s.server, accept_effects ec a s.next_stream s.server)

  pub accepted-Inv : (ec : ErrorCode) → Inv b (after (less ec) (result ec))
  accepted-Inv success =
      keep b s (after (less success) (result success)) inv (λ h. h) refl refl
        (omega (arith, before, total-after b (less success) (result success)))
        (λ h. omega (arith, before, total-after b (less success) (result success)))
  accepted-Inv operation_aborted =
      keep b s (after (less operation_aborted) (result operation_aborted)) inv (λ h. h) refl refl
        (omega (arith, before, total-after b (less operation_aborted) (result operation_aborted)))
        (λ h.
          omega (arith, before, total-after b (less operation_aborted) (result operation_aborted)))
  accepted-Inv (failure n) =
      let t : total b (after (less (failure n)) (result (failure n)))
          ≡ total b (less (failure n)) + count b (accepts (restart a s.server)) =
        rw (total-after b (less (failure n)) (result (failure n)), reads-restart) (omega arith) in
      keep b s (after (less (failure n)) (result (failure n))) inv (λ h. h) refl refl
        (omega (arith, before, t, restarts b a s.server))
        (λ h. omega (arith, before, t, restarts_open b a s.server h))

stored_open :
    (b : Acceptor) (buffer : List ℕ) (req : HttpFields) (s : Server)
    → is_open b (record s { accept_buffer = buffer; accept_request = req }) ≡ is_open b s
stored_open v4 buffer req s = refl
stored_open v6 buffer req s = refl

-- A request has been read: its acceptor accepts again, if it is open.
pub read-Inv :
    (b a : Acceptor) (st : ℕ) (h : HttpRead) (s u : System) (xs ys : List (Acceptor × ℕ))
    (r : Unit {0} × Server × List Effect)
    → s.reading ≡ xs ++ (a, st) ∷ ys
    → Inv b s
    → u ≡ after (record s { reading = xs ++ ys; requests = (st, h.request) ∷ s.requests }) r
    → r.1 ≡ record s.server { accept_buffer = h.rest; accept_request = h.request }
    → accepts r.2 ≡ accepts (restart a s.server)
    → reads r.2 ≡ []
    → Inv b u
read-Inv b a st h s u xs ys r e inv eu e1 e2 e3 =
    let less : System = record s { reading = xs ++ ys; requests = (st, h.request) ∷ s.requests } in
    let before : count b (readers s.reading) ≡ same b a + count b (readers (xs ++ ys)) =
      rw e (readers-middle b a st xs ys) in
    let t : total b (after less r) ≡ total b less + count b (accepts (restart a s.server)) =
      rw (total-after b less r, e2, e3) (omega arith) in
    rw eu (
      keep b s (after less r) inv (λ k. rw (← stored_open b h.rest h.request s.server, ← e1) k) refl
        refl (omega (arith, before, t, restarts b a s.server))
        (λ k. omega (arith, before, t, restarts_open b a s.server k)))

-- A step that starts nothing and opens no acceptor.
pub quiet-Inv :
    (b : Acceptor) (s : System) (r : Unit {0} × Server × List Effect)
    → Inv b s
    → (is_open b r.1 ≡ true → is_open b s.server ≡ true)
    → accepts r.2 ≡ []
    → reads r.2 ≡ []
    → Inv b (after s r)
quiet-Inv b s r inv o e f =
    let t : total b (after s r) ≡ total b s = rw (total-after b s r, e, f) (omega arith) in
    keep b s (after s r) inv o refl refl (omega (arith, t)) (λ h. t)

-- The destructor closes both acceptors.
pub closed-Inv :
    (b : Acceptor) (s : System) (r : Unit {0} × Server × List Effect)
    → Inv b s
    → Stops r
    → Inv b (after (record s { alive = false }) r)
closed-Inv b s r inv c =
    let t : total b (after s r) ≡ total b s =
      rw (total-after b s r, c.starts_accepts, c.starts_reads) (omega arith) in
    record {
      at_most = omega (arith, t, inv.at_most);
      while_open = λ h. absurd (true_ne_false (sym h ∙ c.closed b));
      open_alive = λ h. absurd (true_ne_false (sym h ∙ c.closed b));
    }

-- `start` on a server in any state sets up the acceptors that it can, each with one operation to accept.
started_open :
    (b : Acceptor) (u : Bool) (s r : System)
    → is_open b r.server ≡ (u || is_open b s.server)
    → total b r ≡ total b s + to_nat u
    → count b r.starts ≡ count b s.starts + to_nat u
    → r.alive ≡ true
    → Inv b s
    → Inv b r
started_open b true s r o t n v inv = record {
  open_alive = λ h. v;
  at_most = omega (arith, t, n, inv.at_most);
  while_open = λ h. omega (arith, t);
}
started_open b false s r o t n v inv = record {
  open_alive = λ h. v;
  at_most = omega (arith, t, n, inv.at_most);
  while_open = λ h. omega (arith, t, inv.while_open (sym o ∙ h));
}

begun-Inv :
    (b : Acceptor) (u : Bool) (s : System) (r : ErrorCode × Server × List Effect)
    → is_open b r.1 ≡ (u || is_open b s.server)
    → count b (accepts r.2) ≡ to_nat u
    → reads r.2 ≡ []
    → s.alive ≡ true
    → Inv b s
    → Inv b (after (record s { starts = s.starts ++ accepts r.2 }) r)
begun-Inv b u s r o n q v inv =
    let t : total b (after s r) ≡ total b s + to_nat u =
      rw (total-after b s r, n, q) (omega arith) in
    started_open b u s (after (record s { starts = s.starts ++ accepts r.2 }) r) o t
      (omega (arith, n, count-append b s.starts (accepts r.2))) v inv

pub start_unique :
    (o4 o6 : Setup) (s : Server) (r : ErrorCode × Server × List Effect)
    → start o4 o6 s ≡ some r
    → (start_lem o4 o6 s).0 ≡ r
start_unique o4 o6 s r e = some_injective (sym (start_lem o4 o6 s).1 ∙ e)

pub start-Inv :
    (b : Acceptor) (o4 o6 : Setup) (s : System) (r : ErrorCode × Server × List Effect)
    → start o4 o6 s.server ≡ some r
    → s.alive ≡ true
    → Inv b s
    → Inv b (after (record s { starts = s.starts ++ accepts r.2 }) r)
start-Inv v4 o4 o6 s r e v inv =
    let l = start_lem o4 o6 s.server in
    subst
      (λ (q : ErrorCode × Server × List Effect).
        Inv v4 (after (record s { starts = s.starts ++ accepts q.2 }) q))
      (start_unique o4 o6 s.server r e) (begun-Inv v4 (usable v4 o4) s l.0 l.3.0 l.4.0 l.5.0 v inv)
start-Inv v6 o4 o6 s r e v inv =
    let l = start_lem o4 o6 s.server in
    subst
      (λ (q : ErrorCode × Server × List Effect).
        Inv v6 (after (record s { starts = s.starts ++ accepts q.2 }) q))
      (start_unique o4 o6 s.server r e) (begun-Inv v6 (usable v6 o6) s l.0 l.3.1 l.4.1 l.5.0 v inv)
