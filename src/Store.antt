-- ===== src/Store.antt =====
-- api/internal/store/store.go: the records that the control plane keeps, and the contract of a
-- store. A call that changes the store gives the store after it and what it answers. The random
-- bytes that `CreateUser` may draw are an argument.
pub mod Memory
pub mod Schema
pub mod Ledger
pub mod Postgres
use snow_radar.Common.{ℕ, String, Bool, Option, List, Result}
use snow_radar.Netalloc.{Prefix}

pub data StoreError : Type 0 where
  not_found token_replayed : StoreError
  other : String → StoreError

pub record User : Type 0 where
  pub id : String
  pub email : String
  pub password_hash : String

pub record Peer : Type 0 where
  pub id : String
  pub user_id : String
  pub node_id : String
  pub stealth : Bool
  pub address : Prefix
  pub public_key : String
  pub created_at : ℕ
  pub active : Bool

pub record Subscription : Type 0 where
  pub user_id : String
  pub provider : String
  pub external : String
  pub state : String

-- `CreateUser` writes the id into the user that it is given, so it answers with that user.
pub record Store (S : Type 0) : Type 0 where
  pub create_user : List ℕ → User → S → S × Result StoreError User
  pub get_user_by_email : String → S → Result StoreError User
  pub get_user : String → S → Result StoreError User
  pub save_peer : Peer → S → S × Option StoreError
  pub peers_by_user : String → S → List Peer × Option StoreError
  pub revoke_peer : String → String → S → S × Option StoreError
  pub upsert_subscription : Subscription → S → S × Option StoreError
  pub get_subscription : String → S → Result StoreError Subscription
  pub save_refresh_token : String → String → S → S × Option StoreError
  pub consume_refresh_token : String → S → S × String × Option StoreError
  pub revoke_all_refresh_tokens : String → S → S × Option StoreError
