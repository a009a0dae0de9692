-- ===== src/Wire/RoundTrip.antt =====
-- What of a message's meta survives PackMeta and UnpackMeta.
use step_mesh.Prelude.{
  ℕ, suc, ◌-◌, ◌≤◌, ◌<◌, ◌≡◌, refl, ap, ◌∙◌, inl, inr, ◌||◌, some, List, [], ◌∷◌, ◌++◌, map, arith,
  if◌then◌else◌, Bool-cases, length, take, drop, replicate,
}
use step_mesh.Prelude.Int.{ℤ, pos}
use step_mesh.Message.{
  DataType, char, DeviceType, unk, Role, Command, Node, Control, Meta, server, barrier, ack,
  instance_barrier, command_code, role_code, is_cmd, control_empty,
}
use step_mesh.Wire.{
  RawNode, Cell, byte, int, raw_node, Buffer, data_type_code, device_type_code, widen, fill,
  pack_node, pack_nodes, pack_control, pack_raw, pack_meta,
}
use step_mesh.Wire.Unpack.{
  role_of, command_of, data_type_of, device_type_of, c_string, read_bytes, read_types, unpack_node,
  read_nodes, narrow, read_parts, unpack_meta,
}

-- No byte is NUL.
abbrev pub IsText : List ℕ → Type 0
IsText [] = Unit
IsText (c ∷ cs) = (0 < c) × IsText cs

-- Every node's name leaves room for its NUL in `char[64]`.
abbrev pub NamesFit : List Node → Type 0
NamesFit [] = Unit
NamesFit (n ∷ ns) = IsText n.hostname × (length n.hostname < 64) × NamesFit ns

pub record IsPackable (m : Meta) : Type 0 where
  pub names : NamesFit m.control.node
  pub dims : length m.shape ≤ 8
  pub tensor_byte : m.is_tensor < 256
  pub dtype_byte : m.dtype < 256

-- What the receiver, which starts from `base`, sees of `m`: `sender` and `recver` are not sent; of
-- an application message no control field; a barrier group only with the barrier commands, and a
-- signature only with ACK.
abbrev pub carried_control : Control → Control → Control
carried_control c base =
    if control_empty c
    then record { cmd = Command.empty; node = base.node ++ []; barrier_group = 0; msg_sig = 0 }
    else (record {
      cmd = c.cmd;
      node = base.node ++ c.node;
      barrier_group =
          if is_cmd c.cmd barrier || is_cmd c.cmd instance_barrier then c.barrier_group else 0;
      msg_sig = if is_cmd c.cmd ack then c.msg_sig else 0;
    })

abbrev pub carried : Meta → Meta → Meta
carried m base = record m {
  sender = base.sender;
  recver = base.recver;
  control = carried_control m.control base.control;
  shape = base.shape ++ m.shape;
}

command_of-code : (c : Command) → command_of (command_code c) ≡ some c
command_of-code Command.empty = refl
command_of-code _ = refl

role_of-code : (r : Role) → role_of (role_code r) ≡ some r
role_of-code server = refl
role_of-code _ = refl

data_type_of-code : (t : DataType) → data_type_of (data_type_code t) ≡ some t
data_type_of-code char = refl
data_type_of-code _ = refl

device_type_of-code : (t : DeviceType) → device_type_of (device_type_code t) ≡ some t
device_type_of-code unk = refl
device_type_of-code _ = refl

-- The sign extension of an `int8_t` is undone by the narrowing.
pub narrow-widen : (b : ℕ) → b < 256 → narrow (widen b) ≡ b
narrow-widen b h = ground arith

c_string-append : (s : List ℕ) (k : ℕ) → IsText s → c_string (s ++ replicate (suc k) 0) ≡ some s
unfolding c_string
c_string-append [] k h = refl
c_string-append (c ∷ cs) k h = ground (arith, c_string-append cs k h.1)

c_string-fill :
    (s : List ℕ)
    → IsText s
    → length s < 64
    → (a : List ℕ) × (fill 64 0 s ≡ some a) × (c_string a ≡ some s)
unfolding fill
c_string-fill s h lt = (
  s ++ replicate (64 - length s) 0,
  ground arith,
  ap (λ k. c_string (s ++ replicate k 0)) {y = suc (63 - length s)} (omega arith)
      ∙ c_string-append s (63 - length s) h,
)

-- A node comes back whole.
pub unpack_node-pack_node :
    (n : Node)
    → IsText n.hostname
    → length n.hostname < 64
    → (r : RawNode) × (pack_node n ≡ some r) × (unpack_node r ≡ some n)
unfolding pack_node unpack_node
unpack_node-pack_node n h lt =
    let (a, filled, read) = c_string-fill n.hostname h lt in
    (
      record {
        role = role_code n.role;
        id = n.id;
        hostname = a;
        num_ports = n.num_ports;
        ports = n.ports;
        port = n.port;
        dev_types = n.dev_types;
        dev_ids = n.dev_ids;
        is_recovery = n.is_recovery;
        customer_id = n.customer_id;
        endpoint_name = n.endpoint_name;
        endpoint_name_len = n.endpoint_name_len;
        aux_id = n.aux_id;
      },
      rw (filled, pack_node),
      ground (arith, role_of-code n.role, read),
    )

read_nodes-pack_nodes :
    (ns : List Node)
    → NamesFit ns
    → (cells : List Cell) × (pack_nodes ns ≡ some cells) × (read_nodes (length ns) cells ≡ some ns)
unfolding pack_nodes read_nodes
read_nodes-pack_nodes [] h = ([], refl, refl)
read_nodes-pack_nodes (n ∷ ns) h =
    let (r, packed, unpacked) = unpack_node-pack_node n h.0 h.1 in
    let (cells, rest_packed, rest_read) = read_nodes-pack_nodes ns h.2 in
    (raw_node r ∷ cells, ground (arith, packed, rest_packed), ground (arith, unpacked, rest_read))

read_bytes-map :
    (bs : List ℕ) (cells : List Cell) → read_bytes (length bs) (map byte bs ++ cells) ≡ some bs
unfolding read_bytes
read_bytes-map [] cells = refl
read_bytes-map (b ∷ bs) cells = rw (read_bytes-map bs cells)

read_types-map :
    (ts : List DataType) (cells : List Cell)
    → read_types (length ts) (map (λ t. int (data_type_code t)) ts ++ cells) ≡ some ts
unfolding read_types
read_types-map [] cells = refl
read_types-map (t ∷ ts) cells = ground (arith, data_type_of-code t, read_types-map ts cells)

drop-map {ℓ} :
    {A : Type ℓ} (f : A → Cell) (xs : List A) (cells : List Cell)
    → drop (length xs) (map f xs ++ cells) ≡ cells
drop-map f [] cells = refl
drop-map f (x ∷ xs) cells = drop-map f xs cells

take-append {ℓ} : {A : Type ℓ} (xs ys : List A) → take (length xs) (xs ++ ys) ≡ xs
take-append [] ys = refl
take-append (x ∷ xs) ys = ap (λ l. x ∷ l) (take-append xs ys)

-- The control part alone: the cells that are packed, and the nodes that are read from them.
nodes_of : Control → List Node
nodes_of c = if control_empty c then [] else c.node

control_cells :
    (c : Control)
    → NamesFit c.node
    → (cells : List Cell) × ((if control_empty c then some [] else pack_nodes c.node) ≡ some cells)
      × (read_nodes (pack_control c).node_size cells ≡ some (nodes_of c))
unfolding pack_control read_nodes nodes_of
control_cells c fits = elim (Bool-cases (control_empty c)) [
  | inl e ↦ ([], rw e, rw e)
  | inr e ↦
      let (cells, packed, read) = read_nodes-pack_nodes c.node fits in
      (cells, rw (e, packed), rw (e, read))
]

command_of-pack_at :
    (cmd : Command) (c : Control)
    → command_of (pack_control (record c { cmd = cmd })).cmd ≡ some cmd
unfolding pack_control
command_of-pack_at Command.empty c = refl
command_of-pack_at _ c = refl

command_of-pack : (c : Control) → command_of (pack_control c).cmd ≡ some c.cmd
command_of-pack c = command_of-pack_at c.cmd c

-- The control part as UnpackMeta builds it.
abbrev received_control : Control → Control → Control
received_control c base = record {
  cmd = c.cmd;
  node = base.node ++ nodes_of c;
  barrier_group = (pack_control c).barrier_group;
  msg_sig = (pack_control c).msg_sig;
}

received-eq-carried_at :
    (cmd : Command) (c base : Control)
    → received_control (record c { cmd = cmd }) base ≡ carried_control (record c { cmd = cmd }) base
unfolding pack_control nodes_of
received-eq-carried_at Command.empty c base = refl
received-eq-carried_at _ c base = refl

received-eq-carried : (c base : Control) → received_control c base ≡ carried_control c base
received-eq-carried c base = received-eq-carried_at c.cmd c base

read_parts-pack :
    (m : Meta) (shape : List ℤ) (cells : List Cell)
    → read_nodes (pack_control m.control).node_size cells ≡ some (nodes_of m.control)
    → read_parts (record {
      raw = pack_raw m shape;
      rest = map byte m.body ++ (map (λ t. int (data_type_code t)) m.data_type ++ cells);
    })
      ≡ some (record {
        body = m.body;
        data_type = m.data_type;
        node = nodes_of m.control;
        cmd = m.control.cmd;
        src = m.src_dev_type;
        dst = m.dst_dev_type;
      })
unfolding read_parts pack_raw
read_parts-pack m shape cells read = ground (
  arith,
  read_bytes-map m.body (map (λ t. int (data_type_code t)) m.data_type ++ cells),
  drop-map byte m.body (map (λ t. int (data_type_code t)) m.data_type ++ cells),
  read_types-map m.data_type cells,
  drop-map (λ t. int (data_type_code t)) m.data_type cells,
  read,
  command_of-pack m.control,
  device_type_of-code m.src_dev_type,
  device_type_of-code m.dst_dev_type,
)

-- PackMeta followed by UnpackMeta, for every packable meta and every meta of the receiver: neither
-- faults, and the result is the meta but for its sender and receiver, which stay the receiver's, and
-- for its control and shape: nodes and shape are appended to the receiver's, an application message
-- has no control fields, a group comes only with a barrier, and a signature only with an ACK.
pub unpack-pack :
    (m base : Meta)
    → IsPackable m
    → (b : Buffer) × (pack_meta m ≡ some b) × (unpack_meta b base ≡ some (carried m base))
unfolding pack_meta unpack_meta pack_raw fill
unpack-pack m base h =
    let shape : List ℤ = m.shape ++ replicate (8 - length m.shape) (pos 0) in
    let (cells, packed, read) = control_cells m.control h.names in
    (
      record {
        raw = pack_raw m shape;
        rest = map byte m.body ++ (map (λ t. int (data_type_code t)) m.data_type ++ cells);
      },
      ground (arith, packed),
      ground (
        arith,
        read_parts-pack m shape cells read,
        narrow-widen m.is_tensor h.tensor_byte,
        narrow-widen m.dtype h.dtype_byte,
        take-append m.shape (replicate (8 - length m.shape) (pos 0)),
        received-eq-carried m.control base.control,
      ),
    )
