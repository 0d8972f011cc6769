-- ===== src/Server/Accepting.antt =====
-- The chain of operations by which each acceptor of a running `Server` (src/server.cpp) accepts one
-- connection after the other.
use lib_native_streaming.Common.{◌+◌, ◌≡◌, ◌≤◌, refl, sym, ◌∙◌, subst, true, ◌++◌, arith}
use lib_native_streaming.Base64.{Codec}
use lib_native_streaming.Authentication.{StringAlgorithm}
use lib_native_streaming.Server.{Acceptor, v4, v6, is_open, Authenticate, new_server, destroy}
use lib_native_streaming.Server.System.{
  System, after, count, Handled, accepted, request_read, upgraded, started, stopped, Step, handled,
  destroyed, orphan_accepted, orphan_upgraded, Run, made, next,
}
use lib_native_streaming.Server.Counting.{in_flight}
use lib_native_streaming.Server.Handlers.{
  Completed, accept_effects, on_accept_tcp_connection_lem, on_request_read_lem,
}
use lib_native_streaming.Server.Endings.{Opened, Stopped, stop_lem, on_upgrade_connection_lem}
use lib_native_streaming.Server.Chains.{
  Inv, true_ne_false, some_injective, before, less, accepted-Inv, read-Inv, quiet-Inv, closed-Inv,
  start-Inv,
}

module _ (sa : StringAlgorithm) (codec : Codec) (authenticate : Authenticate) where
  Handled-Inv :
      (b : Acceptor) {s u : System}
      → Inv b s
      → s.alive ≡ true
      → Handled sa codec authenticate s u
      → Inv b u
  Handled-Inv b {s} inv v (accepted a ec xs ys r e f) =
      let g : (tt, s.server, accept_effects ec a s.next_stream s.server) ≡ r =
        some_injective (rw (← on_accept_tcp_connection_lem a ec s.next_stream s.server) f) in
      subst (λ r. Inv b (after (less b a s xs ys e inv ec) r)) g (accepted-Inv b a s xs ys e inv ec)
  Handled-Inv b {s} inv v (request_read a st h xs ys r e f) =
      let c =
        subst (Completed sa codec authenticate a st h s.server) f
          (on_request_read_lem sa codec authenticate a st h s.server) in
      read-Inv b a st h s _ xs ys r e inv refl c.0 c.1 c.2.starts_reads
  Handled-Inv b {s} inv v (upgraded ec st ctx live ep xs ys r e f) =
      let c =
        subst (Opened st ctx s.server) f (on_upgrade_connection_lem ec st ctx live ep s.server) in
      quiet-Inv b (record s { upgrading = xs ++ ys }) r
        (record { at_most = inv.at_most; while_open = inv.while_open; open_alive = inv.open_alive })
        (λ h. rw (← c.keeps) h) c.starts_accepts c.starts_reads
  Handled-Inv b {s} inv v (started o4 o6 r n4 n6 e) = start-Inv b o4 o6 s r e v inv
  Handled-Inv b {s} inv v (stopped r f) =
      let c = subst Stopped f (stop_lem s.server) in
      quiet-Inv b s r inv (λ h. absurd (true_ne_false (sym h ∙ c.closed b))) c.starts_accepts
        c.starts_reads

  Step-Inv : (b : Acceptor) {s u : System} → Inv b s → Step sa codec authenticate s u → Inv b u
  unfolding destroy
  Step-Inv b inv (handled v p) = Handled-Inv b inv v p
  Step-Inv b {s} inv (destroyed r v f) =
      let c = subst Stopped f (stop_lem s.server) in closed-Inv b s r inv c
  Step-Inv b {s} inv (orphan_accepted a xs ys d e) = record {
    at_most = omega (arith, before b a s xs ys e inv, inv.at_most);
    while_open = λ h. absurd (true_ne_false (sym (inv.open_alive h) ∙ d));
    open_alive = inv.open_alive;
  }
  Step-Inv b inv (orphan_upgraded st ctx xs ys d e) = record {
    at_most = inv.at_most;
    while_open = inv.while_open;
    open_alive = inv.open_alive;
  }

  Run-Inv : (b : Acceptor) {s : System} → Run sa codec authenticate s → Inv b s
  unfolding new_server
  Run-Inv v4 made = record {
    at_most = omega arith;
    while_open = λ h. absurd cc;
    open_alive = λ h. refl;
  }
  Run-Inv v6 made = record {
    at_most = omega arith;
    while_open = λ h. absurd cc;
    open_alive = λ h. refl;
  }
  Run-Inv b (next p q) = Step-Inv b (Run-Inv b p) q

  -- In any history of a server, in which `start` and `stop` may be called again and which may end
  -- with its destruction: an acceptor has at most
  -- as many operations in flight, to accept or to read a request, as `start` has set it up times (once,
  -- if the server is started once). While it is open it has at least one, unless an operation to
  -- accept completed with `operation_aborted`, which ends its chain.
  pub Run-accepts :
      (b : Acceptor) {s : System}
      → Run sa codec authenticate s
      → (in_flight b s + count b s.ended ≤ count b s.starts)
        × (is_open b s.server ≡ true → 1 ≤ in_flight b s + count b s.ended)
  Run-accepts b r = ((Run-Inv b r).at_most, (Run-Inv b r).while_open)
