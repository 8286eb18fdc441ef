-- ===== src/Lib.antt =====
-- A verification library for sidewire: signed messages between peers over a pool of MQTT brokers
-- (the Python package under src/sidewire).
--
-- A client keeps a TCP stream to one broker. The reader cuts the stream into MQTT packets, and
-- the protocol code answers each: it resolves the futures of acknowledged packets, checks and
-- delivers signed messages, and queues acknowledgements. The sending side queues signed messages,
-- and a background task republishes them. A router keeps one client for each broker; it ranks the
-- brokers of a key, connects the clients that serve it, and closes idle ones. A smart pipe sends
-- a message over several clients and takes the first acknowledgement. The files:
--
-- - Prelude: shared names, list and dictionary lemmas; Prelude.Action is Python code that mutates
--   an object and may raise, Prelude.Frame says what an action leaves alone.
-- - Aionetiface: what the code calls of the packages aionetiface and ecdsa and of hashlib
--   (conversions, hashes, signatures, the clock, the pipe), a parameter of the model.
-- - Wire: src/sidewire/mqtt/utils.py (the varint coder, mqtt_enc_str), mqtt_packet.py,
--   mqtt_msgs.py, mqtt_reader.py.
-- - AppPacket: src/sidewire/mqtt/app_packet.py.
-- - Client: the state of MQTTClient (mqtt_client.py); Client.PacketIds and Client.Sending are its
--   operations with those of mqtt_ordered_send.py and utils.py.
-- - Proto: app_proto.py and mqtt_proto.py.
-- - Exchange: a message between two clients, from the call that sends it to the future that its
--   acknowledgement resolves.
-- - Connection: mqtt_connect.py, and __init__, connect and close of MQTTClient.
-- - Dispatch: mqtt_dispatch.py, with iter_all_messages and prune_msg_ids of utils.py.
-- - Brokers: src/sidewire/utils.py (the ranking of brokers and the walk over them). HintCache:
--   src/sidewire/broker_hint_cache.py.
-- - Router: src/sidewire/router.py. SmartPipe: src/sidewire/smart_pipe.py, and pipe of router.py.
-- - Experiments: experiments/mqtt_client.py, a small client with its own encoder and reader,
--   beside the library's. Its loops have fuel, and a result says how much is enough.
-- - Examples: runs, and the theorems at concrete inputs.
--
-- A definition has the name of the Python function in lower case; a class is a record, and a
-- method a function that returns the new record. Bytes are lists of numbers, a str is the list of
-- its code points, and Text is a value that may be either. A Python dict is an association list
-- in insertion order. A future is a reference into the client's store of futures. Times are whole
-- microseconds, durations whole seconds, and a subtraction of times is moved to the other side of
-- its comparison. The n-th reading of the clock is a parameter, and the state counts the
-- readings.
--
-- The loop of the reader has the length of its buffer as fuel, since each turn takes bytes off
-- the buffer. The varint encoder recurs on the value itself, the decoder on its four rounds, and
-- get_packet_id on its 65535 rounds.
--
-- The clients of a router are objects in a store, and so are the tables of received message
-- hashes: the store says which table a client refers to. What pipe.close and cancel_task do is a
-- parameter (Aionetiface): they may raise, and what the code does then is modelled. A close that
-- returns has set on_close. The two signers, the plain one and the one of an executor, are
-- parameters, too: each is some function of key and message, and nothing is assumed to relate
-- them, since ECDSA draws a random number for a signature. What the network does is a parameter
-- where it is met: what a connect meets (Attempt), which connects of a walk complete and when,
-- and which tasks of a send are done in each turn.
--
-- Exchange puts two clients together: each is its own state, with its own clock, and the broker
-- between them is a parameter.
--
-- Not modelled: what happens between two steps of one operation (an operation runs to its end
-- before another starts), but for the waits of the walks over brokers, of a send over several
-- clients, of the dispatcher and of the idle closer, where what other tasks do is a parameter;
-- log lines; the network behind pipe.send; the path of the cache file; the other scripts under
-- experiments, which start other packages or live brokers.
pub mod Prelude
pub mod Aionetiface
pub mod Wire
pub mod AppPacket
pub mod Client
pub mod Proto
pub mod Dispatch
pub mod Connection
pub mod Brokers
pub mod HintCache
pub mod Exchange
pub mod Router
pub mod SmartPipe
pub mod Examples
pub mod Experiments
