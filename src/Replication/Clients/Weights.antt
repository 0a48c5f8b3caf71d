-- ===== src/Replication/Clients/Weights.antt =====
-- The connections that a run of the server is about, by the sum of a weight of each.
use my_proxy.Base.{ℕ, suc, ◌+◌, ◌≡◌, Bool, List, [], ◌∷◌, Bytes}
use my_proxy.Base.Dict.{Dict}
use my_proxy.Base.Ordered.{total}
use my_proxy.Replication.Changes.{Now}
use my_proxy.Replication.Clients.{DumpClient, Input}

abbrev pub dumps : {Conn : Type 0} → List (Now × Input Conn) → ℕ
dumps [] = 0
dumps ((now, Input.dump conn server_id position) ∷ inputs) = suc (dumps inputs)
dumps ((now, Input.change e) ∷ inputs) = dumps inputs
dumps ((now, Input.tick id) ∷ inputs) = dumps inputs
dumps ((now, Input.done id) ∷ inputs) = dumps inputs

-- The connections that asked for a dump, the closed ones and those of the clients, by the sum of a
-- weight of each.
abbrev pub weight_of_dumps : {Conn : Type 0} → (Conn → ℕ) → List (Now × Input Conn) → ℕ
weight_of_dumps f [] = 0
weight_of_dumps f ((now, Input.dump conn server_id position) ∷ inputs) =
    f conn + weight_of_dumps f inputs
weight_of_dumps f ((now, Input.change e) ∷ inputs) = weight_of_dumps f inputs
weight_of_dumps f ((now, Input.tick id) ∷ inputs) = weight_of_dumps f inputs
weight_of_dumps f ((now, Input.done id) ∷ inputs) = weight_of_dumps f inputs

abbrev pub weight_of_conns : {Conn : Type 0} → (Conn → ℕ) → List Conn → ℕ
weight_of_conns f [] = 0
weight_of_conns f (conn ∷ conns) = f conn + weight_of_conns f conns

abbrev pub weight_of_clients : {Conn : Type 0} → (Conn → ℕ) → Dict ℕ (DumpClient Conn) → ℕ
weight_of_clients f m = total (λ c. f c.conn) m

-- What does not change of a connection: a weight `f` of it, by which it is told from others.
pub record IsWeight {Conn : Type 0} (write : Conn → Bytes → Conn × Bool) (close : Conn → Conn)
    (f : Conn → ℕ) : Type 0 where
  pub written : (conn : Conn) (bs : Bytes) → f (write conn bs).0 ≡ f conn
  pub closed : (conn : Conn) → f (close conn) ≡ f conn
