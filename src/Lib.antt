-- ===== src/Lib.antt =====
-- Telenode: the firmware of a vehicle tracker (Zephyr, nRF9160). Drivers read GPS sentences, OBD-II
-- parameters, trouble codes and an accelerometer; their records go to an MQTT broker, or into two
-- rings in flash while the broker cannot be reached, and are replayed on the next connection.
--
-- The files, and the code that each is about (paths from the repository's root):
--
--   Prelude      shared names, Boolean tests, lists over the native numbers, errno codes and results,
--                uint32_t arithmetic and its bytes
--   Nvs          Zephyr's NVS file system, a parameter: two operations and their documented laws
--   BufferFifo   src/buffer_fifo.c, .h: the two rings. `push`, `peek`, `pop_ack`, `init`, `count` and
--                `is_empty` are the functions of the same names with the prefix buffer_fifo_. The
--                statics are the record `Fifo`. `Queue` is the abstract queue, `View` the relation
--                between a ring and its queue; `Write`, `Refine`, `Apart`, `Run` and `Reboot` hold the
--                proofs, `Faults` what goes wrong on power loss and on the wrap of the cursors.
--   DtcDecode    src/dtc_decode.c, .h: the Mode 03 request and the parser of its response. `Spec` is
--                the parser by lists, `Codes` a trouble code with its parts.
--   Mqtt         Zephyr's MQTT client, a parameter: its operations and the laws of a publish
--   Uplink       src/uplink_mqtt.c, .h: publishing, buffering and the replay. The statics are the
--                record `Uplink`, those of the rings included; the functions keep their names.
--                `Events` is mqtt_event_handler, `Connect` try_connect_once and the delays between
--                its calls, `Thread` a round of uplink_thread_fn, `Address`
--                build_device_id_and_topics, `Setup` mqtt_broker_resolve and mqtt_client_setup.
--                `Silent`, `Raises` and `Extends` are what its calls leave alone.
--   Obd          src/obd_j1979.c, .h: request_pid, request_dtcs and a round of the thread
--   Sensors      src/app_sensors.c: `Serial` is serial_cb, `Fixes` process_reading and
--                process_rmc_frames_thread, `Stream` app_sensors_read_and_stream with its two formats
--                and the table of reported trouble codes. `Stream` publishes through `Uplink`. `Coord`
--                is coord_to_minmea, over the single-precision floats of `Float32`.
--   HarshDriving src/harsh_driving.c: the three thresholds
--   Imu          src/imu_icm42688.c: a round of the thread, which uses HarshDriving and publishes
--   AppSettings  src/app_settings.c: the settings and their getters
--   AppRpc       src/app_rpc.c: the countdown before a reboot
--   Boot         src/main.c up to its loop, with the initialisations that it calls in the other files and
--                their credentials: uplink_mqtt_init, ota_update_init, obd_j1979_init and so on.
--                `Registration` is lte_handler with uplink_mqtt_start.
--   Device       all of it: a record of the statics, and a relation `Step` whose steps are those of the
--                threads and of the UART interrupt, in any interleaving. `Phase` is the place at which
--                uplink_thread_fn stands. `History` lists the events that a run has answered for;
--                `Kept`, `Replayed`, `Delivered` and `AtLeastOnce` follow them. `Limits` and `Quiet` say
--                which sizes and which silence the steps keep, `Bounds` and `Silent` what follows of a run.
--   Ota          src/ota_update.c: split_url, on_ota_message and ota_update_init. `Delivery` joins it
--                to the events of `Uplink`, `Finish` is fota_download_event_handler.
--
-- Numbers are natural numbers; a uint32_t or uint16_t cursor keeps its wrap-around, `% 2 ^ 32`. A
-- function that returns 0 or a negative errno returns a `Result`. A mutex makes what it guards one
-- step, and a publish of an event and the push that follows it where it is not handed over are two, between
-- which Device lets any other thread run. What else a turn of a thread's loop does is one step there.
-- `drain_channel` takes fuel, and more fuel than queued records is proved to be enough;
-- `parse_response` takes the length of the frame as fuel, which its loop never uses up.
--
-- What the hardware and the network do is an argument: the turns of a waiting loop with the uptime that
-- each reads (`Turn`, `PollTurn`), the results of library calls, the uptime of a sentence. The
-- conversions of printf, the parsers of minmea and of JSON, and the FOTA library are parameters of
-- which nothing is assumed. A float is a parameter too, but for two laws of its comparison in
-- HarshDriving, except in coord_to_minmea: there it is a whole number of units of 2 ^ -149 and each
-- operation rounds to the nearest float, ties to even; 256 digits of fuel are enough for any float. The
-- modem's store of credentials and its link have the documented laws `ModemLaws`, the client's other
-- calls `WireLaws`. A C value with a flag that says whether it is valid is an `Option`.
--
-- Device leaves the waits of the threads open: each of its steps may come at any time, which adds
-- interleavings and takes none away. A thread that has not been created, because its device is not
-- ready, is one that makes no step.
--
-- Not modelled: logging, the LED and the wake-up by the button in src/main.c, the battery monitor, which
-- another board has, src/app_state.c, whose one function returns 0, and what Zephyr and the modem
-- library do behind their calls. A compile-time option has the value of prj.conf:
-- CONFIG_MODEM_KEY_MGMT and CONFIG_MQTT_LIB_TLS are set.
pub mod Prelude
pub mod Nvs
pub mod Boot
pub mod AppSettings
pub mod AppRpc
pub mod Device
pub mod BufferFifo
pub mod DtcDecode
pub mod Mqtt
pub mod Uplink
pub mod Obd
pub mod HarshDriving
pub mod Imu
pub mod Sensors
pub mod Ota
