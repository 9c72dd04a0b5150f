-- ===== src/Device/Memory.antt =====
-- Test data for the firmware as a whole: an NVS and a broker in memory, numbers for floats, and a receiver
-- each of whose sentences is a valid fix.
use telenode.Prelude.{ℕ, refl, true, false, List, [], ◌∷◌, some, leb}
use telenode.Prelude.Errno.{ok, success}
use telenode.Prelude.Texts.{codes}
use telenode.BufferFifo.Memory.{Memory, memory, no_meta, metas, full_entries}
use telenode.Mqtt.{WireLaws, MqttOps, ConnectOps}
use telenode.Obd.{pos, Round, Exchange}
use telenode.Ota.{OtaOps, Download}
use telenode.Ota.Accept.{pointer}
use telenode.Sensors.Fixes.{rmc}
use telenode.Sensors.Stream.{RmcFrame}
use telenode.AppSettings.{compiled_in}
use telenode.Uplink.{Uplink}
use telenode.Uplink.Address.{build_device_id, build_topics}
use telenode.Uplink.Memory.{Broker, broker, broker_laws}
use telenode.Device.{Env}

abbrev pub conn : ConnectOps Broker
conn = record { connect = λ m. (success, m); abort = λ m. m }

-- A client that hands over everything, and whose messages carry the URL.
abbrev pub reader : MqttOps Broker
reader = record broker { read_payload = λ m n. (ok (codes "https://fw.example.com/a.bin"), m) }

abbrev pub wire : WireLaws reader conn
wire = record {
  base = record {
    sent = broker_laws.sent;
    publish_ok = broker_laws.publish_ok;
    publish_err = broker_laws.publish_err;
  };
  subscribe_sent = λ m topic id. refl;
  read_sent = λ m n. refl;
  ack_sent = λ m id. refl;
  connect_sent = λ m. refl;
  abort_sent = λ m. refl;
}

abbrev pub frame : RmcFrame ℕ
frame = record {
  valid = true;
  latitude = 0;
  longitude = 0;
  speed = 0;
  course = 0;
  year = pos 24;
  month = pos 1;
  day = pos 2;
  hours = pos 3;
  minutes = pos 4;
  seconds = pos 5;
  microseconds = pos 0;
}

abbrev pub fota : OtaOps (List Download)
fota = record {
  json_parse = λ payload. ok (pointer (codes "1.2") payload);
  provision = λ f. (success, f);
  download_init = λ f. (success, f);
  download_start = λ f d. (success, d ∷ f);
}

abbrev pub device_id : List ℕ
device_id = build_device_id [] (ok (codes "356938035643809"))

abbrev pub env : Env Memory Broker (List Download) ℕ ℕ
env = record {
  minmea = record {
    parse = λ text. rmc (some frame);
    valid = λ f. f.valid;
    set_latitude = λ x frame. frame;
    set_longitude = λ x frame. frame;
  };
  settings = compiled_in;
  quotient = λ a b. 0;
  floats = record { le = leb; neg = λ x. 0; abs = λ x. x };
  thresholds = record { harsh_accel_mps2 = 3; harsh_brake_mps2 = 4; harsh_corner_mps2 = 4 };
  f2 = λ x. codes "5.00";
  formats = record {
    d = λ n. [];
    d02 = λ n. [];
    d03 = λ n. [];
    f = λ n. [];
    f1 = λ n. [];
    to_coord = λ n. n;
    to_float = λ n. n;
    knots_to_kmh = λ n. n;
    of_int = λ n. 0;
  };
  names = record { device_id = device_id; fw_version = codes "1.0.0" };
  nvs = memory;
  mqtt = reader;
  conn = conn;
  ota = fota;
  ota_config = record { server_hostname = codes "fw.example.com"; sec_tag = 25 };
  handler_set = true;
}

-- An uplink with empty rings, before its first connection
abbrev pub fresh : Uplink Memory Broker
fresh = record {
  client = [];
  fifo = record { fs = full_entries; channel_meta = metas no_meta; mounted = true };
  topics = build_topics device_id;
  connected = false;
  connack_ok = false;
  next_message_id = 1;
}

-- A request that the bus answers at once with these bytes
abbrev pub answered : List ℕ → Exchange
answered bytes = record {
  sent = success;
  started = 0;
  turns = record { uptime = 1; received = some bytes } ∷ [];
}

-- A vehicle that answers its speed, and one trouble code, P0133.
abbrev pub round : Round
round = record {
  speed = answered (3 ∷ 0x41 ∷ 0x0D ∷ 50 ∷ []);
  rpm = answered [];
  fuel = answered [];
  coolant = answered [];
  voltage = answered [];
  dtcs = answered (4 ∷ 0x43 ∷ 0x01 ∷ 0x33 ∷ []);
}
