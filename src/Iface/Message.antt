-- ===== src/Iface/Message.antt =====
-- src/iface.rs: the messages that the transport hands to the interface manager.
use reticulum_sdk.Base.{Option}
use reticulum_sdk.Packet.Types.{AddressHash, Packet}

pub data TxMessageType : Type 0 where
  broadcast : Option AddressHash → TxMessageType
  direct : AddressHash → TxMessageType
  broadcast_from : AddressHash → TxMessageType

pub record TxMessage : Type 0 where
  pub tx_type : TxMessageType
  pub packet : Packet
