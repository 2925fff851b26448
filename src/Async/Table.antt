-- ===== src/Async/Table.antt =====
-- std::unordered_map<std::string, PendingRequest> as an association list. The order of iteration,
-- which the standard leaves open, is the order of the list.
pub mod Laws
use stdiobus_cpp.Prelude.{
  ℕ, suc, Bool, Option, none, some, List, [], ◌∷◌, Bytes, bytes_eq, ◌==◌, if◌then◌else◌,
}
use stdiobus_cpp.Prelude.Int.{ℤ}

-- struct PendingRequest; a std::promise is a number.
pub record PendingRequest : Type 0 where
  pub promise : ℕ
  pub deadline : ℤ

abbrev pub Table : Type 0
Table = List (Bytes × PendingRequest)

-- find(id)
unfoldable pub lookup : Bytes → Table → Option PendingRequest
unfolding bytes_eq
lookup id [] = none
lookup id ((key, r) ∷ t) = if bytes_eq key id then some r else lookup id t

-- erase(it), for the iterator that find(id) gives
unfoldable pub erase : Bytes → Table → Table
unfolding bytes_eq
erase id [] = []
erase id ((key, r) ∷ t) = if bytes_eq key id then t else (key, r) ∷ erase id t

-- pending_[id] = r
unfoldable pub put : Bytes → PendingRequest → Table → Table
unfolding bytes_eq
put id r [] = (id, r) ∷ []
put id r ((key, old) ∷ t) = if bytes_eq key id then (key, r) ∷ t else (key, old) ∷ put id r t

-- How many entries hold a promise.
unfoldable pub holders : ℕ → Table → ℕ
holders p [] = 0
holders p ((key, r) ∷ t) = if r.promise == p then suc (holders p t) else holders p t
