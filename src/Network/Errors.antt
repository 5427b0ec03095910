-- ===== src/Network/Errors.antt =====
-- `DialErrorKind` and `classify_dial_error` of src/p2p/network.rs, and the dial errors that the event
-- loop answers with.
use p2p_service.Prelude.{ℕ, Option, none, some, List, [], ◌∷◌, Each, ◌≢◌, Option-cases, inl, inr}
use p2p_service.HashMap
use p2p_service.Deps.{
  Deps, DialError, Outcome, ok, failed, wrong_peer_id, dial_peer_condition_false, other_dial_error,
}
use p2p_service.Network.{EventLoop, BoxError, dial_failed, dial_error, Response, error, Sent}
use p2p_service.Network.Commands.{on_dial, start_dial}
use p2p_service.Network.Events.{resolve_dials, answer_all, on_outgoing_connection_error}

pub data DialErrorKind : Type 0 where
  wrong_peer unreachable internal : DialErrorKind

-- The `DialError` that a downcast finds in the error.
unfoldable pub downcast : BoxError → Option DialError
downcast (dial_failed e) = some e
downcast (dial_error e) = some e
downcast _ = none

unfoldable pub kind_of : Option DialError → DialErrorKind
kind_of (some wrong_peer_id) = wrong_peer
kind_of (some _) = unreachable
kind_of none = internal

unfoldable pub classify_dial_error : BoxError → DialErrorKind
unfolding downcast kind_of
classify_dial_error e = kind_of (downcast e)

-- An answer that is an error is a dial error.
abbrev pub IsDialAnswer : {d : Deps} → Response d → Type 0
IsDialAnswer (error e) = classify_dial_error e ≢ internal
IsDialAnswer _ = Unit

module _ (d : Deps) where
  dial_failed-IsDialAnswer : (e : DialError) → classify_dial_error (dial_failed e) ≢ internal
  unfolding classify_dial_error
  dial_failed-IsDialAnswer wrong_peer_id = λ h. cc
  dial_failed-IsDialAnswer dial_peer_condition_false = λ h. cc
  dial_failed-IsDialAnswer (other_dial_error t) = λ h. cc

  Each-answer_all :
      (senders : List ℕ) (e : DialError)
      → Each
          (λ (x : Sent d). IsDialAnswer x.response)
          (answer_all d senders (error (dial_failed e)))
  unfolding Each
  Each-answer_all [] e = tt
  Each-answer_all (n ∷ senders) e = (dial_failed-IsDialAnswer e, Each-answer_all senders e)

  start_dial-IsDialAnswer :
      (s : EventLoop d) (p : d.PeerId) (n : ℕ) (o : Outcome DialError)
      → Each (λ (x : Sent d). IsDialAnswer x.response) (start_dial d s p n o).1
  unfolding Each start_dial classify_dial_error
  start_dial-IsDialAnswer s p n ok = tt
  start_dial-IsDialAnswer s p n (failed dial_peer_condition_false) = (tt, tt)
  start_dial-IsDialAnswer s p n (failed wrong_peer_id) = ((λ h. cc), tt)
  start_dial-IsDialAnswer s p n (failed (other_dial_error t)) = ((λ h. cc), tt)

  -- Whatever the event loop answers to a dial, at once or when the connection fails, is a success
  -- or an error that is classified as a wrong peer id or an unreachable peer, never as internal.
  pub dials-IsDialAnswer :
      (s : EventLoop d) (p : d.PeerId) (addrs : List d.Multiaddr) (n : ℕ) (e : DialError)
      → Each (λ (x : Sent d). IsDialAnswer x.response) (on_dial d s p addrs n).1
        × Each
            (λ (x : Sent d). IsDialAnswer x.response)
            (on_outgoing_connection_error d s (some p) e).1
  unfolding Each on_dial on_outgoing_connection_error resolve_dials
  dials-IsDialAnswer s p addrs n e = elim (Option-cases (HashMap.get d.peer_eq p s.pending_dials)) [
    | inl absent ↦ rw (absent, on_dial, resolve_dials) (start_dial-IsDialAnswer _ p n _, tt)
    | inr (senders, known) ↦ rw (known, on_dial, resolve_dials) (tt, Each-answer_all senders e)
  ]
