-- ===== src/Wire.antt =====
-- `Van::GetPackMetaLen`, `Van::PackMeta` and `Van::UnpackMeta` (src/van.cc) and the raw structs of
-- src/meta.h. What follows the `RawMeta` in a buffer is a list of typed cells, body bytes first,
-- then data types, then nodes: the offsets that both functions compute are positions in this list.
-- The writes past an array that long names and shapes make are `none`.
pub mod Unpack
pub mod RoundTrip
mod Tests
use step_mesh.Prelude.{
  ℕ, zero, suc, ◌+◌, ◌-◌, ◌*◌, ◌/◌, ◌%◌, ◌^◌, ◌≤◌, ◌<◌, ◌≡◌, refl, sym, ap, ◌∙◌, ◌≢◌, ◌↔◌, ◌⊎◌, inl,
  inr, Bool, true, false, not, ◌&&◌, ◌||◌, Option, none, some, List, [], ◌∷◌, ◌++◌, map, arith, ltb,
  leb, ◌==◌, if◌then◌else◌, Bool-cases, Option-cases, length, get_elem?, set, take, drop, replicate,
  get_or, length-append, length-set,
}
use step_mesh.Prelude.Int.{ℤ, pos, negsuc}
use step_mesh.Message.{
  DataType, char, int8, int16, int32, int64, uint8, uint16, uint32, uint64, float, double, other,
  DeviceType, unk, cpu, gpu, Role, Command, Node, Control, Meta, empty, barrier, ack,
  instance_barrier, command_code, role_code, is_cmd, control_empty,
}

pub record RawNode : Type 0 where
  pub role : ℕ
  pub id : ℕ
  pub hostname : List ℕ  -- char[64]
  pub num_ports : ℕ
  pub ports : List ℕ  -- int[32]
  pub port : ℕ
  pub dev_types : List ℕ  -- int[32]
  pub dev_ids : List ℤ  -- int[32]
  pub is_recovery : Bool
  pub customer_id : ℕ
  pub endpoint_name : List ℕ  -- char[64]
  pub endpoint_name_len : ℕ
  pub aux_id : ℤ

pub record RawControl : Type 0 where
  pub cmd : ℕ
  pub node_size : ℕ
  pub barrier_group : ℕ
  pub msg_sig : ℕ

-- `is_tensor` and `dtype` are the bit patterns of an `int`.
pub record RawMeta : Type 0 where
  pub head : ℤ
  pub body_size : ℕ
  pub control : RawControl
  pub request : Bool
  pub app_id : ℕ
  pub timestamp : ℕ
  pub data_type_size : ℕ
  pub src_dev_type : ℕ
  pub src_dev_id : ℤ
  pub dst_dev_type : ℕ
  pub dst_dev_id : ℤ
  pub customer_id : ℕ
  pub push : Bool
  pub simple_app : Bool
  pub data_size : ℤ
  pub key : ℕ
  pub addr : ℕ
  pub val_len : ℤ
  pub option : ℤ
  pub sid : ℤ
  pub is_tensor : ℕ
  pub dtype : ℕ
  pub dim : ℕ
  pub shape : List ℤ  -- int64_t[8]

pub data Cell : Type 0 where
  byte : ℕ → Cell
  int : ℕ → Cell
  raw_node : RawNode → Cell

pub record Buffer : Type 0 where
  pub raw : RawMeta
  pub rest : List Cell

abbrev pub data_type_code : DataType → ℕ
data_type_code char = 0
data_type_code int8 = 1
data_type_code int16 = 2
data_type_code int32 = 3
data_type_code int64 = 4
data_type_code uint8 = 5
data_type_code uint16 = 6
data_type_code uint32 = 7
data_type_code uint64 = 8
data_type_code float = 9
data_type_code double = 10
data_type_code other = 11

abbrev pub device_type_code : DeviceType → ℕ
device_type_code unk = 0
device_type_code cpu = 1
device_type_code gpu = 2

-- `sizeof(RawMeta)` and `sizeof(RawNode)` are the ABI's; an `int` has 4 bytes.
pub get_pack_meta_len : ℕ → ℕ → Meta → ℕ
get_pack_meta_len raw_meta_size raw_node_size m =
    let data_type_size = length m.data_type * 4 in
    raw_meta_size + length m.body + data_type_size + length m.control.node * raw_node_size

-- An `int8_t` widened to an `int`, in bit patterns: the sign is extended.
abbrev pub widen : ℕ → ℕ
widen b = if ltb b 128 then b else b + (2 ^ 32 - 256)

-- A zeroed array of `n` entries with a copy of `xs` at its start; `none` if it does not fit.
pub fill {ℓ} : {A : Type ℓ} → ℕ → A → List A → Option (List A)
fill n zero_value xs =
    if leb (length xs) n then some (xs ++ replicate (n - length xs) zero_value) else none

pub pack_node : Node → Option RawNode
unfolding fill
pack_node n = elim (fill 64 0 n.hostname) [
  | none ↦ none
  | some hostname ↦ some (record {
    role = role_code n.role;
    id = n.id;
    hostname = hostname;
    num_ports = n.num_ports;
    ports = n.ports;
    port = n.port;
    dev_types = n.dev_types;
    dev_ids = n.dev_ids;
    is_recovery = n.is_recovery;
    customer_id = n.customer_id;
    endpoint_name = n.endpoint_name;
    endpoint_name_len = n.endpoint_name_len;
    aux_id = n.aux_id;
  })
]

pub pack_nodes : List Node → Option (List Cell)
unfolding pack_node
pack_nodes [] = some []
pack_nodes (n ∷ ns) = elim (pack_node n) [
  | none ↦ none
  | some r ↦ elim (pack_nodes ns) [ none ↦ none | some rs ↦ some (raw_node r ∷ rs) ]
]

-- The fields that PackMeta writes to `raw->control`, zeroed before.
pub pack_control : Control → RawControl
pack_control c =
    if control_empty c
    then record { cmd = command_code empty; node_size = 0; barrier_group = 0; msg_sig = 0 }
    else (record {
      cmd = command_code c.cmd;
      node_size = length c.node;
      barrier_group =
          if is_cmd c.cmd barrier || is_cmd c.cmd instance_barrier then c.barrier_group else 0;
      msg_sig =
          if is_cmd c.cmd barrier || is_cmd c.cmd instance_barrier
          then 0
          else (if is_cmd c.cmd ack then c.msg_sig else 0);
    })

pub pack_raw : Meta → List ℤ → RawMeta
unfolding pack_control
pack_raw m shape = record {
  head = m.head;
  body_size = length m.body;
  control = pack_control m.control;
  request = m.request;
  app_id = m.app_id;
  timestamp = m.timestamp;
  data_type_size = length m.data_type;
  src_dev_type = device_type_code m.src_dev_type;
  src_dev_id = m.src_dev_id;
  dst_dev_type = device_type_code m.dst_dev_type;
  dst_dev_id = m.dst_dev_id;
  customer_id = m.customer_id;
  push = m.push;
  simple_app = m.simple_app;
  data_size = m.data_size;
  key = m.key;
  addr = m.addr;
  val_len = m.val_len;
  option = m.option;
  sid = m.sid;
  is_tensor = widen m.is_tensor;
  dtype = widen m.dtype;
  dim = length m.shape;
  shape = shape;
}

-- `none` is a write past the end of `hostname` or of `shape`.
pub pack_meta : Meta → Option Buffer
unfolding pack_raw pack_nodes fill
pack_meta m = elim (fill 8 (pos 0) m.shape) [
  | none ↦ none
  | some shape ↦ elim (if control_empty m.control then some [] else pack_nodes m.control.node) [
    | none ↦ none
    | some nodes ↦ some (record {
      raw = pack_raw m shape;
      rest = map byte m.body ++ (map (λ d. int (data_type_code d)) m.data_type ++ nodes);
    })
  ]
]
