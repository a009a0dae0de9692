-- ===== src/Wire/Unpack.antt =====
-- `Van::UnpackMeta`.
use step_mesh.Prelude.{
  ℕ, zero, suc, ◌%◌, Option, none, some, List, [], ◌∷◌, ◌++◌, ◌==◌, if◌then◌else◌, get_elem?, take,
  drop,
}
use step_mesh.Message.{
  DataType, char, int8, int16, int32, int64, uint8, uint16, uint32, uint64, float, double, other,
  DeviceType, unk, cpu, gpu, Role, Command, Node, Meta, server, worker, scheduler, joint,
}
use step_mesh.Wire.{RawNode, Cell, byte, int, raw_node, Buffer}

-- The casts to enumerations; `none` is a number with no enumerator.
abbrev pub role_of : ℕ → Option Role
role_of n = get_elem? (server ∷ worker ∷ scheduler ∷ joint ∷ []) n

abbrev pub command_of : ℕ → Option Command
command_of n =
    get_elem?
      (Command.empty ∷ Command.terminate ∷ Command.add_node ∷ Command.barrier ∷ Command.ack
        ∷ Command.heartbeat ∷ Command.bootstrap ∷ Command.addr_request ∷ Command.addr_resolved
        ∷ Command.instance_barrier ∷ [])
      n

abbrev pub data_type_of : ℕ → Option DataType
data_type_of n =
    get_elem?
      (char ∷ int8 ∷ int16 ∷ int32 ∷ int64 ∷ uint8 ∷ uint16 ∷ uint32 ∷ uint64 ∷ float ∷ double
        ∷ other ∷ [])
      n

abbrev pub device_type_of : ℕ → Option DeviceType
device_type_of n = get_elem? (unk ∷ cpu ∷ gpu ∷ []) n

abbrev pub cons_some {ℓ} : {A : Type ℓ} → A → Option (List A) → Option (List A)
cons_some x none = none
cons_some x (some xs) = some (x ∷ xs)

-- The string of a `char` array: the bytes before the first NUL; `none` if there is none.
unfoldable pub c_string : List ℕ → Option (List ℕ)
c_string [] = none
c_string (c ∷ cs) = if c == 0 then some [] else cons_some c (c_string cs)

-- Reads of the typed cells; `none` is a cell of another kind, or the end of the buffer.
unfoldable pub read_bytes : ℕ → List Cell → Option (List ℕ)
read_bytes zero cells = some []
read_bytes (suc n) (byte b ∷ cells) = cons_some b (read_bytes n cells)
read_bytes (suc n) _ = none

unfoldable pub read_types : ℕ → List Cell → Option (List DataType)
read_types zero cells = some []
read_types (suc n) (int d ∷ cells) = elim (data_type_of d) [
  | none ↦ none
  | some t ↦ cons_some t (read_types n cells)
]
read_types (suc n) _ = none

unfoldable pub unpack_node : RawNode → Option Node
unfolding c_string
unpack_node p = elim (role_of p.role) [
  | none ↦ none
  | some role ↦ elim (c_string p.hostname) [
    | none ↦ none
    | some hostname ↦ some (record {
      role = role;
      id = p.id;
      customer_id = p.customer_id;
      hostname = hostname;
      num_ports = p.num_ports;
      ports = p.ports;
      dev_types = p.dev_types;
      dev_ids = p.dev_ids;
      port = p.port;
      is_recovery = p.is_recovery;
      endpoint_name = p.endpoint_name;
      endpoint_name_len = p.endpoint_name_len;
      aux_id = p.aux_id;
    })
  ]
]

unfoldable pub read_nodes : ℕ → List Cell → Option (List Node)
unfolding unpack_node
read_nodes zero cells = some []
read_nodes (suc n) (raw_node p ∷ cells) = elim (unpack_node p) [
  | none ↦ none
  | some node ↦ cons_some node (read_nodes n cells)
]
read_nodes (suc n) _ = none

-- An `int` narrowed to an `int8_t`, in bit patterns.
abbrev pub narrow : ℕ → ℕ
narrow n = n % 256

-- The commands, devices and lists that a buffer holds are read first; a read that faults stops.
pub record Parts : Type 0 where
  pub body : List ℕ
  pub data_type : List DataType
  pub node : List Node
  pub cmd : Command
  pub src : DeviceType
  pub dst : DeviceType

infixl 5 ◌>>=◌
abbrev ◌>>=◌ {ℓ κ} : {A : Type ℓ} {B : Type κ} → Option A → (A → Option B) → Option B
some a >>= f = f a
none >>= f = none

-- The offsets are UnpackMeta's: the data types follow `body_size` bytes, the nodes follow them.
unfoldable pub read_parts : Buffer → Option Parts
unfolding read_bytes read_types read_nodes
read_parts b = do
  let types = drop b.raw.body_size b.rest
  body ← read_bytes b.raw.body_size b.rest
  data_type ← read_types b.raw.data_type_size types
  node ← read_nodes b.raw.control.node_size (drop b.raw.data_type_size types)
  cmd ← command_of b.raw.control.cmd
  src ← device_type_of b.raw.src_dev_type
  dst ← device_type_of b.raw.dst_dev_type
  some (record { body = body; data_type = data_type; node = node; cmd = cmd; src = src; dst = dst })

-- `meta` is the message's meta as the caller passes it; its nodes and shape are appended to.
unfoldable pub unpack_meta : Buffer → Meta → Option Meta
unfolding read_parts
unpack_meta b meta = do
  p ← read_parts b
  some (record {
    head = b.raw.head;
    app_id = b.raw.app_id;
    customer_id = b.raw.customer_id;
    timestamp = b.raw.timestamp;
    sender = meta.sender;
    recver = meta.recver;
    request = b.raw.request;
    push = b.raw.push;
    simple_app = b.raw.simple_app;
    body = p.body;
    data_type = p.data_type;
    src_dev_type = p.src;
    src_dev_id = b.raw.src_dev_id;
    dst_dev_type = p.dst;
    dst_dev_id = b.raw.dst_dev_id;
    control = record {
      cmd = p.cmd;
      node = meta.control.node ++ p.node;
      barrier_group = b.raw.control.barrier_group;
      msg_sig = b.raw.control.msg_sig;
    };
    data_size = b.raw.data_size;
    key = b.raw.key;
    addr = b.raw.addr;
    val_len = b.raw.val_len;
    option = b.raw.option;
    sid = b.raw.sid;
    is_tensor = narrow b.raw.is_tensor;
    dtype = narrow b.raw.dtype;
    shape = meta.shape ++ take b.raw.dim b.raw.shape;
  })
