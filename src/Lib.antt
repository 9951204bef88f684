-- ===== src/Lib.antt =====
-- The protocol engine of a fuzzing framework: a message is a list of bytes that a data model of blocks
-- describes, and a state machine says which messages a protocol expects in which state.
--
-- The parts, and how they interact:
--   core/engine/protocol_parser.py, `ProtocolParser`. `parse` reads a message into a dict of fields;
--     `serialize` resolves the values of the fields (given, from the protocol context, generated),
--     sets the size fields, writes the bytes, and patches the checksums into them.
--   core/engine/response_planner.py, `ResponsePlanner`. It parses a response, and its handlers copy
--     values from it, transformed as the parser's are, into requests that the parser serializes.
--   core/engine/protocol_utils.py finds the field that names a message's type.
--   core/engine/stateful_fuzzer.py, `StatefulFuzzingSession`. It parses each message that is sent, finds
--     the transition of the state model for it, moves, and keeps the history that coverage counts.
--   core/engine/state_navigator.py, `StateNavigator`. It asks the session where it is, and searches the
--     state model for a path to a target.
--   core/engine/heartbeat_scheduler.py, `HeartbeatScheduler`. It runs beside the session, sends a message at
--     intervals, and counts what is not answered.
--   core/engine/plugin_validator.py, `PluginValidator`. It checks a data model and a state model before
--     the parser, the session and the navigator work on them.
--   core/engine/mutators.py, `MutationEngine`, and core/engine/mutation_primitives.py. The engine makes test
--     cases from seeds: bytes by its own mutators, fields by the primitives, or an enumeration's tests.
--
-- The files:
--   Prelude and its children: shared names, lists over the native numbers, Python's integers with
--     their operations on bits, powers of two.
--   Result, Dict: Python code that may raise, and the `dict` with text keys.
--   Protocol/Model: a block, which is a record with an `Option` for each key that the code tests, a
--     value, and the exceptions. Texts that are data are lists of code points.
--   Protocol/Integers: `_get_integer_info`, `_parse_integer_field`, `_serialize_integer_field`, with the
--     integer formats of `struct.pack` and `struct.unpack` written out. Integers/RoundTrip has proofs.
--   Protocol/BitString: a message as one number, against which bit fields are described.
--   Protocol/Parse: `parse` and the methods below it. `bit_offset` is passed along.
--   Protocol/Serialize: `_serialize_fields_to_bytes`; `Writer` holds its local variables `result`,
--     `bit_offset`, `bit_buffer` and `bits_in_buffer`. Serialize/Writing and Serialize/Flushing have
--     proofs, RoundTrip and its children the two directions together.
--   Protocol/AutoFix: `_auto_fix_fields`, `_calculate_field_length` and what they call.
--   Protocol/Checksum: `serialize_with_checksums` and what it calls.
--   Protocol/Resolve: `_resolve_field_values`, `_generate_value`, `serialize`, `build_default_fields`.
--   Transform: `_apply_transforms` of the parser, and `_apply_operation` and the pipeline of
--     the planner's `_resolve_field_value`, on integers; Transform/Loops: the same with operands of every
--     type, and the loops. Transform/Steps, Transform/Agree and Transform/Invert have proofs.
--   Stateful/Choice: the termination states, `select_transition`, the search for a seed, `should_reset`.
--   Stateful/Commands: `find_command_field` and `build_message_type_mapping`.
--   Stateful/Session: the session as a record, `update_state`, `reset_to_initial_state`,
--     `restore_state`, and what they call. Stateful/Coverage: both coverages. The other files of
--     Stateful are proofs.
--   Navigator: `find_path_to_state`. Navigator/Drive: the intervals, the injection of termination tests and
--     `update_state`; Navigator/Select: the choice of a message. The other files of Navigator are proofs.
--   Planner: `plan`, `reset` and what they call; `Planner` holds `_fired_handlers` and the counters of the
--     request parser. Planner/Once and Planner/Context have proofs.
--   Heartbeat: a round of `_heartbeat_loop`, and `_handle_failure`; Heartbeat/Abort has proofs.
--   Validator: `validate_plugin` and the methods that it calls. Data has what a plugin hands in and the
--     issues, Blocks, Dependencies, States and Plugin the checks; the other files are proofs.
--   Mutation: Draws has the functions of `random`, Bytes and Havoc the mutators, Engine `MutationEngine`,
--     Primitives the module of that name; the other files are proofs. The number of draws is passed along.
--   Tests: samples, runs, and the witnesses.
--
-- Fuel: `emit_all`, the loop `while bits_in_buffer >= 8`, runs on fuel, and its caller gives it
-- `bits_in_buffer`; each round takes eight bits away.
-- `search`, the loop over the queue, runs on fuel: one more than the number of transitions, since each
-- transition queues one state at most.
-- `reach`, the loop `while changed` of the validator, has the same fuel: each pass that changes something
-- reaches one more transition's target.
--
-- Parameters: the encodings of the Python runtime (`Codec`), `int` of a text (`ReadInt`) and
-- arithmetic in which a float takes part (`Runtime`), zlib's checksums (`Zlib`), the clock and
-- `os.urandom` (`Surroundings`), the functions of `random` (`Random`, `Weighted`, `Chances`), the
-- products with a ratio of floats, and the search for a keyword in a state's name (`Suggests`).
--
-- Not modelled: logging and timestamps; dictionaries of a shape that the plugin validator refuses,
-- such as a block whose `size` is no natural number; a negative length that a signed size field
-- holds and a field whose value is a float, where the model ends in an error of its own; sockets,
-- processes, the database, the web API and the user interface; the structure-aware mutator, the
-- tasks and intervals of the heartbeat, the overrides that the response planner computes for the
-- API, and the metadata of the mutation engine.
pub mod Prelude
pub mod Result
pub mod Dict
pub mod Protocol
pub mod Transform
pub mod Stateful
pub mod Navigator
pub mod Planner
pub mod Heartbeat
pub mod Validator
pub mod Mutation
pub mod Tests
