-- ===== src/Message.antt =====
-- The data that nodes exchange: `Node`, `Control`, `Meta` and `Message` of
-- include/ps/internal/message.h. An `int` that the code only fills with ids, counts, ports and
-- timestamps is a natural number; one that may be negative, or that the user chooses, is in ℤ. The
-- traces, which only a build with STEPMESH_ENABLE_TRACE fills, the queue-pair counters and the
-- tensor event are left out.
use step_mesh.Prelude.{ℕ, Bool, false, List, [], ◌==◌}
use step_mesh.Prelude.Int.{ℤ, pos, negsuc}

pub data DataType : Type 0 where
  char int8 int16 int32 int64 uint8 uint16 uint32 uint64 float double other : DataType

pub data DeviceType : Type 0 where
  unk cpu gpu : DeviceType

pub data Role : Type 0 where
  server worker scheduler joint : Role

pub data Command : Type 0 where
  empty terminate add_node barrier ack heartbeat bootstrap addr_request addr_resolved
        instance_barrier :
      Command

-- `Node::kEmpty` and `Meta::kEmpty`
abbrev pub k_empty : ℕ
k_empty = 32767

-- A `std::string` is the list of its bytes; `endpoint_name` is the array's 64 bytes.
pub record Node : Type 0 where
  pub role : Role
  pub id : ℕ
  pub customer_id : ℕ
  pub hostname : List ℕ
  pub num_ports : ℕ
  pub ports : List ℕ
  pub dev_types : List ℕ
  pub dev_ids : List ℤ
  pub port : ℕ
  pub is_recovery : Bool
  pub endpoint_name : List ℕ
  pub endpoint_name_len : ℕ
  pub aux_id : ℤ

pub record Control : Type 0 where
  pub cmd : Command
  pub node : List Node
  pub barrier_group : ℕ
  pub msg_sig : ℕ

-- `is_tensor` and `dtype` are the bit patterns of an `int8_t`.
pub record Meta : Type 0 where
  pub head : ℤ
  pub app_id : ℕ
  pub customer_id : ℕ
  pub timestamp : ℕ
  pub sender : ℕ
  pub recver : ℕ
  pub request : Bool
  pub push : Bool
  pub simple_app : Bool
  pub body : List ℕ
  pub data_type : List DataType
  pub src_dev_type : DeviceType
  pub src_dev_id : ℤ
  pub dst_dev_type : DeviceType
  pub dst_dev_id : ℤ
  pub control : Control
  pub data_size : ℤ
  pub key : ℕ
  pub addr : ℕ
  pub val_len : ℤ
  pub option : ℤ
  pub sid : ℤ
  pub is_tensor : ℕ
  pub dtype : ℕ
  pub shape : List ℤ

-- The default constructors.
abbrev pub no_control : Control
no_control = record { cmd = empty; node = []; barrier_group = 0; msg_sig = 0 }

abbrev pub new_meta : Meta
new_meta = record {
  head = pos k_empty;
  app_id = k_empty;
  customer_id = k_empty;
  timestamp = k_empty;
  sender = k_empty;
  recver = k_empty;
  request = false;
  push = false;
  simple_app = false;
  body = [];
  data_type = [];
  src_dev_type = unk;
  src_dev_id = negsuc 0;
  dst_dev_type = unk;
  dst_dev_id = negsuc 0;
  control = no_control;
  data_size = pos 0;
  key = 0;
  addr = 0;
  val_len = pos 0;
  option = pos 0;
  sid = pos 0;
  is_tensor = 0;
  dtype = 0;
  shape = [];
}

-- Comparisons of enumerators.
abbrev pub command_code : Command → ℕ
command_code empty = 0
command_code terminate = 1
command_code add_node = 2
command_code barrier = 3
command_code ack = 4
command_code heartbeat = 5
command_code bootstrap = 6
command_code addr_request = 7
command_code addr_resolved = 8
command_code instance_barrier = 9

abbrev pub role_code : Role → ℕ
role_code server = 0
role_code worker = 1
role_code scheduler = 2
role_code joint = 3

abbrev pub is_cmd : Command → Command → Bool
is_cmd a b = command_code a == command_code b

abbrev pub is_role : Role → Role → Bool
is_role a b = role_code a == role_code b

-- `Control::empty`
abbrev pub control_empty : Control → Bool
control_empty c = is_cmd c.cmd empty
