-- ===== src/Server/Start.antt =====
-- main.rs: `main`, `setup_loopback` and `vsock_to_tcp_bridge`. What the machine does is a parameter, what the
-- program asks of it is returned as a list of actions, and logging is left out.

pub mod Serving
use attestation.Common.{
  ℕ, String, Bool, true, false, Option, none, some, List, [], ◌∷◌, ◌++◌, Bytes, codes, map,
  if◌then◌else◌,
}
use attestation.Server.Data.{AppState}

-- The device file of the socket to the host, `Command::status` of a program and its arguments where it spawns
-- and whether it succeeds, the key that is generated, the variable `ENCLAVE_BIND`, and addresses.
pub record Machine : Type 1 where
  pub vsock_device : Bool
  pub status : List String → Option Bool
  pub generated : Bytes
  pub enclave_bind : Option Bytes
  pub SocketAddr : Type 0
  pub parse_addr : Bytes → Option SocketAddr
  pub bind : SocketAddr → Bool
  pub vsock_bind : ℕ → Bool

pub data Action : Type 0 where
  run : List String → Action
  spawn_bridge : (vsock_port tcp_port : ℕ) → Action

abbrev pub assign_address : List String
assign_address = "busybox" ∷ "ip" ∷ "addr" ∷ "add" ∷ "127.0.0.1/8" ∷ "dev" ∷ "lo" ∷ []

abbrev pub link_up : List String
link_up = "busybox" ∷ "ip" ∷ "link" ∷ "set" ∷ "dev" ∷ "lo" ∷ "up" ∷ []

-- How the program comes to an end, or that it serves.
pub data Ended (A : Type 0) : Type 0 where
  panicked failed : Ended A
  serving : AppState → A → Ended A

-- `expect` and `success`
abbrev pub succeeds : Option Bool → Bool
succeeds none = false
succeeds (some success) = success

-- One connection of the host: accepted or not, and whether the local connection is made.
pub data Incoming : Type 0 where
  accepted : (connects : Bool) → Incoming
  refused : Incoming

pub data Handled : Type 0 where
  copies warns : Handled

-- A round of the loop of `vsock_to_tcp_bridge`
abbrev pub handle : Incoming → Handled
handle (accepted true) = copies
handle (accepted false) = warns
handle refused = warns

module _ (m : Machine) where
  open m use {
    vsock_device, status, generated, enclave_bind, SocketAddr, parse_addr, bind, vsock_bind,
  }

  -- The commands that were run, and whether it returns: otherwise it panics.
  unfoldable pub setup_loopback : List Action × Bool
  setup_loopback =
      if succeeds (status assign_address)
      then (run assign_address ∷ run link_up ∷ [], succeeds (status link_up))
      else (run assign_address ∷ [], false)

  -- What becomes of each connection, where the port is bound.
  unfoldable pub vsock_to_tcp_bridge : (vsock_port tcp_port : ℕ) → List Incoming → List Handled
  vsock_to_tcp_bridge vsock_port tcp_port incoming =
      if vsock_bind vsock_port then map handle incoming else []

  abbrev pub bind_text : Option Bytes → Bytes
  bind_text none = codes "127.0.0.1:3000"
  bind_text (some text) = text

  -- The rest of `main`, once the loopback is up.
  unfoldable pub listen : Ended SocketAddr
  listen = elim (parse_addr (bind_text enclave_bind)) [
    | none ↦ failed
    | some addr ↦ if bind addr then serving (record { verifying_key = generated }) addr else failed
  ]

  unfoldable pub main : List Action × Ended SocketAddr
  unfolding setup_loopback listen
  main =
      if vsock_device
      then (if setup_loopback.1
          then (setup_loopback.0 ++ (spawn_bridge 3000 3000 ∷ []), listen)
          else (setup_loopback.0, panicked))
      else ([], listen)
