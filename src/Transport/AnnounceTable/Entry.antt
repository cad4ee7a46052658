-- ===== src/Transport/AnnounceTable/Entry.antt =====
-- src/transport/announce_table.rs: an announce that this node sends on, and when it does. Instants
-- are in nanoseconds; the random numbers of `SysRng` are arguments.
use reticulum_sdk.Base.{ℕ, ◌+◌, ◌*◌, ◌%◌, Option, none, some, Bool, ◌||◌, ltb, leb, if◌then◌else◌}
use reticulum_sdk.Iface.Message.{TxMessage, TxMessageType, direct, broadcast_from}
use reticulum_sdk.Packet.Header.{open', type2, transport, single, announce}
use reticulum_sdk.Packet.Context.{PacketContext, path_response}
use reticulum_sdk.Packet.Types.{AddressHash, Packet}

abbrev pub second : ℕ
second = 1_000_000_000

abbrev pub pathfinder_g : ℕ
pathfinder_g = 5

abbrev pub pathfinder_rw_millis : ℕ
pathfinder_rw_millis = 500

abbrev pub local_rebroadcasts_max : ℕ
local_rebroadcasts_max = 2

-- `random_rw_jitter`, from the number that the generator gives.
unfoldable pub random_rw_jitter : ℕ → ℕ
random_rw_jitter next_u64 = (next_u64 % (pathfinder_rw_millis + 1)) * 1_000_000

pub record AnnounceEntry : Type 0 where
  pub packet : Packet
  pub timestamp : ℕ
  pub timeout : ℕ
  pub received_from : AddressHash
  pub retries : ℕ
  pub local_rebroadcasts : ℕ
  pub hops : ℕ
  pub response_to_iface : Option AddressHash

pub data RetransmitOutcome : Type 0 where
  completed deferred : RetransmitOutcome
  ready : TxMessage → RetransmitOutcome

abbrev pub context_of : AnnounceEntry → PacketContext
context_of e = elim e.response_to_iface [ none ↦ e.packet.context | some _ ↦ path_response ]

abbrev pub tx_type_of : AnnounceEntry → TxMessageType
tx_type_of e = elim e.response_to_iface [
  | none ↦ broadcast_from e.received_from
  | some iface ↦ direct iface
]

-- `AnnounceEntry::always_retransmit`
unfoldable pub always_retransmit : AddressHash → AnnounceEntry → TxMessage
always_retransmit transport_id e = record {
  tx_type = tx_type_of e;
  packet = record {
    header = record {
      ifac_flag = open';
      header_type = type2;
      context_flag = e.packet.header.context_flag;
      propagation_type = transport;
      destination_type = single;
      packet_type = announce;
      hops = e.hops;
    };
    ifac = none;
    destination = e.packet.destination;
    transport = some transport_id;
    context = context_of e;
    data' = e.packet.data';
  };
}

abbrev pub exhausted : AnnounceEntry → Bool
exhausted e =
    leb local_rebroadcasts_max e.retries || leb local_rebroadcasts_max e.local_rebroadcasts

-- What a transmission changes of the entry.
unfoldable pub transmitted : ℕ → ℕ → AnnounceEntry → AnnounceEntry
transmitted random now e = record e {
  retries = e.retries + 1;
  timeout = now + pathfinder_g * second + random_rw_jitter random;
}

-- `AnnounceEntry::retransmit`
unfoldable pub retransmit : ℕ → ℕ → AddressHash → AnnounceEntry → AnnounceEntry × RetransmitOutcome
retransmit random now transport_id e =
    if exhausted e
    then (e, completed)
    else if ltb now e.timeout
    then (e, deferred)
    else let e' = transmitted random now e in (e', ready (always_retransmit transport_id e'))
