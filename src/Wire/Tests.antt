-- ===== src/Wire/Tests.antt =====
-- A registration message on the wire.
use step_mesh.Prelude.{◌≡◌, false, some, [], ◌∷◌, arith}
use step_mesh.Prelude.Int.{pos, negsuc}
use step_mesh.Message.{Node, Meta, server, add_node, new_meta, uint64, float}
use step_mesh.Wire.{Buffer, pack_meta}
use step_mesh.Wire.Unpack.{unpack_meta}
use step_mesh.Wire.RoundTrip.{IsPackable, carried, unpack-pack}

abbrev host : Node
host = record {
  role = server;
  id = 8;
  customer_id = 0;
  hostname = 104 ∷ 49 ∷ [];
  num_ports = 1;
  ports = 9000 ∷ [];
  dev_types = 1 ∷ [];
  dev_ids = pos 0 ∷ [];
  port = 9000;
  is_recovery = false;
  endpoint_name = [];
  endpoint_name_len = 0;
  aux_id = negsuc 0;
}

abbrev registration : Meta
registration = record new_meta {
  body = 1 ∷ 2 ∷ [];
  data_type = uint64 ∷ float ∷ [];
  is_tensor = 1;
  dtype = 200;
  shape = pos 3 ∷ pos 4 ∷ [];
  control = record { cmd = add_node; node = host ∷ []; barrier_group = 0; msg_sig = 0 };
}

registration-IsPackable : IsPackable registration
registration-IsPackable = record {
  names = ((omega arith, (omega arith, tt)), omega arith, tt);
  dims = omega arith;
  tensor_byte = omega arith;
  dtype_byte = omega arith;
}

unpack-pack_example :
    (b : Buffer) × (pack_meta registration ≡ some b)
    × (unpack_meta b new_meta ≡ some (carried registration new_meta))
unpack-pack_example = unpack-pack registration new_meta registration-IsPackable
