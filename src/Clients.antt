-- ===== src/Clients.antt =====
-- `clientListener` of src/htnstratum/client_handler.go: the clients that are connected, and the
-- extranonces that keep them from searching the same nonces. Clients are of a type `C`.
pub mod Extranonce
pub mod Job
pub mod Told
mod Tests
use htn_stratum_bridge.Prelude.{
  ℕ, zero, suc, ◌+◌, ◌-◌, ◌*◌, ◌^◌, Bool, true, false, [], ◌∷◌, Map, insert, delete, int_Eq, ltb,
  min_ℕ, nat_eq, ℤ, pos, negsuc, ltb_ℤ, if◌then◌else◌,
}

pub record ClientListener (C : Type 0) : Type 0 where
  pub clients : Map ℤ C
  pub client_counter : ℤ
  pub extranonce_size : ℤ
  pub max_extranonce : ℕ
  pub next_extranonce : ℕ

-- `int32(math.Pow(2, 8*math.Min(size, 3)) - 1)`, which is cut off to 0 for a negative size.
abbrev pub max_extranonce_of : ℤ → ℕ
max_extranonce_of (pos size) = 2 ^ (8 * min_ℕ size 3) - 1
max_extranonce_of (negsuc size) = 0

-- `atomic.AddInt32(&i, 1)`, which wraps.
unfoldable pub inc32 : ℤ → ℤ
inc32 (pos n) = if nat_eq n (2 ^ 31 - 1) then negsuc (2 ^ 31 - 1) else pos (n + 1)
inc32 (negsuc zero) = pos 0
inc32 (negsuc (suc n)) = negsuc n

module _ {C : Type 0} where
  unfoldable pub new_client_listener : ℤ → ClientListener C
  new_client_listener extranonce_size = record {
    clients = [];
    client_counter = pos 0;
    extranonce_size = extranonce_size;
    max_extranonce = max_extranonce_of extranonce_size;
    next_extranonce = 0;
  }

  -- `OnConnect`: the client's id, and the extranonce that it is given, which is used only if the
  -- size is positive.
  unfoldable pub on_connect : C → ClientListener C → ClientListener C × ℤ × ℕ
  on_connect c l =
      let idx = inc32 l.client_counter in
      let connected = record l { clients = insert idx c l.clients; client_counter = idx } in
      if ltb_ℤ (pos 0) l.extranonce_size
      then (
        record connected {
          next_extranonce =
              if ltb l.next_extranonce l.max_extranonce then l.next_extranonce + 1 else 0;
        },
        idx,
        l.next_extranonce,
      )
      else (connected, idx, 0)

  -- The first half of `OnDisconnect`; the second is `remove_stats` of Share.Stats.
  unfoldable pub on_disconnect : ℤ → ClientListener C → ClientListener C
  on_disconnect id l = record l { clients = delete id l.clients }
