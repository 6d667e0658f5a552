-- ===== src/State/Linked.antt =====
-- What it is for the two maps of clients of src/state.rs to agree.
use direlera_rs.Prelude.{ℕ, ◌≡◌, some, nat_eq}
use direlera_rs.Dict.{lookup}
use direlera_rs.State.{ClientInfo, AppState, new}

-- Every address leads to a client, no two to the same, and every client has an address.
pub record IsLinked (s : AppState) : Type 0 where
  pub known :
      (a id : ℕ)
      → lookup a s.clients_by_addr ≡ some id
      → (c : ClientInfo) × (lookup id s.clients_by_id ≡ some c)
  pub one_addr :
      (a b id : ℕ)
      → lookup a s.clients_by_addr ≡ some id
      → lookup b s.clients_by_addr ≡ some id
      → a ≡ b
  pub reached :
      (id : ℕ) (c : ClientInfo)
      → lookup id s.clients_by_id ≡ some c
      → (a : ℕ) × (lookup a s.clients_by_addr ≡ some id)

pub new-IsLinked : IsLinked new
unfolding new lookup
new-IsLinked = record { known = λ a id e. cc; one_addr = λ a b id e f. cc; reached = λ id c e. cc }
