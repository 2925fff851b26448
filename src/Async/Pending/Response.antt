-- ===== src/Async/Pending/Response.antt =====
-- What handle_response and register do to the futures.
use stdiobus_cpp.Prelude.{
  ℕ, ◌≡◌, refl, false, none, some, Bytes, arith, ◌≢◌, is_empty, Bool-cases, inl, inr,
}
use stdiobus_cpp.Prelude.Int.{ℤ}
use stdiobus_cpp.Error
use stdiobus_cpp.Async.Id.{extract_id}
use stdiobus_cpp.Async.Table.{PendingRequest, lookup}
use stdiobus_cpp.Async.Table.Laws.{lookup-put, lookup-erase, bytes_eq_refl}
use stdiobus_cpp.Async.Pending.{
  AsyncResult, AsyncState, abandon_old, ready, register, handle_response,
}
use stdiobus_cpp.Async.Pending.Invariant.{
  IsValid, settle-IsValid, settle-eq, settled, register-IsValid,
}

-- Any message of the kernel leaves the requests valid: no promise is set twice.
pub handle_response-IsValid :
    (msg : Bytes) (s : AsyncState)
    → IsValid s
    → (s' : AsyncState) × (handle_response msg s ≡ some s') × IsValid s'
unfolding handle_response
handle_response-IsValid msg s v = elim (Bool-cases (is_empty (extract_id msg))) [
  | inl e ↦ (s, rw (e, handle_response) refl, v)
  | inr e ↦ rw (e, handle_response) (settle-IsValid (extract_id msg) _ s v)
]

-- A request under an id that is not empty and not pending, and then a response with that id: the
-- future has the response, the id is free again, and every other promise is as before.
pub register-handle_response :
    (id msg : Bytes) (deadline : ℤ) (s : AsyncState)
    → IsValid s
    → extract_id msg ≡ id
    → is_empty id ≡ false
    → lookup id s.pending ≡ none
    → (s' : AsyncState) × (handle_response msg (register id deadline s) ≡ some s')
      × (s'.promises s.next_promise ≡ ready (record { error = Error.ok; response = msg }))
      × ((p : ℕ) → p ≢ s.next_promise → s'.promises p ≡ s.promises p)
      × (lookup id s'.pending ≡ none)
unfolding handle_response register abandon_old
register-handle_response id msg deadline s v e ne free =
    let r : PendingRequest = record { promise = s.next_promise; deadline = deadline } in
    let s1 : AsyncState = register id deadline s in
    let v1 : IsValid s1 = register-IsValid id deadline v in
    let result : AsyncResult = record { error = Error.ok; response = msg } in
    let found : lookup id s1.pending ≡ some r =
      rw (lookup-put id id r s.pending, bytes_eq_refl id) refl in
    (
      settled id result s1 r,
      rw (e, handle_response, ne) (settle-eq id result s1 r v1 found),
      ground arith,
      λ p ne'. ground arith,
      rw (lookup-erase id id s1.pending v1.distinct, bytes_eq_refl id) refl,
    )
