-- ===== src/Session/Build.antt =====
-- web-rpc/src/lib.rs, `Builder` and `assemble`: an interface becomes a client, a server or both.
use web_rpc.Prelude.{List, true, none}
use web_rpc.Session.Formats.{Formats}
use web_rpc.Session.Message.{Message}
use web_rpc.Session.State.{State}
use web_rpc.Session.World.{World, initial, drop_server}

module _ (f : Formats) where
  -- What `Interface::new` returns: its listener, which is held, has put messages into the channel.
  pub record Interface : Type 0 where
    pub messages : List (Message f)

  -- The parameters `C` and `S` of a builder: the unit type, or a generated type.
  pub data Half : Type 0 where
    unset generated : Half

  -- `service` of a builder; `T` is the type that implements the trait.
  abbrev pub Held : Half → Type 0 → Type 0
  Held unset T = Unit
  Held generated T = T

  pub record Builder (C S : Half) (T : Type 0) : Type 0 where
    pub service : Held S T
    pub interface : Interface

  -- A server owns its service and runs on the shared state.
  pub record Server (T : Type 0) : Type 0 where
    pub service : T

  -- What the halves of an interface share, as `assemble` makes it: the maps and channels are empty, and what
  -- had arrived is still to be dispatched.
  unfoldable pub assemble : {T : Type 0} → Interface → T → State f × Server T
  assemble i service =
      (record (initial f true) { inbox = i.messages }, record { service = service })

  module _ {T : Type 0} where
    -- `Builder::new`.
    unfoldable pub new : Interface → Builder unset unset T
    new i = record { service = tt; interface = i }

    unfoldable pub with_service : {C : Half} → T → Builder C unset T → Builder C generated T
    with_service implementation b = record { service = implementation; interface = b.interface }

    unfoldable pub with_client : {S : Half} → Builder unset S T → Builder generated S T
    with_client b = record { service = b.service; interface = b.interface }

    -- `Builder::build`, of a client alone: the server of `NoService` is dropped unpolled.
    unfoldable pub build_client : Builder generated unset T → State f
    build_client b = drop_server f (assemble b.interface tt).0

    -- Of a server alone: the client is dropped, and what it shares with the dispatcher stays.
    unfoldable pub build_server : Builder unset generated T → State f × Server T
    build_server b = assemble b.interface b.service

    unfoldable pub build_both : Builder generated generated T → State f × Server T
    build_both b = assemble b.interface b.service

  -- An interface that is just built, of which nothing is awaited.
  abbrev pub built : State f → World f
  built s = record { state = s; live = λ q. none }
