-- ===== src/Lib.antt =====
-- The backend client: its provisioning server, its decoders and topics, the mesh that it keeps, the
-- diagnostics control, and the inventory of its tests.
--
-- The backend client (wirepas_backend_client/) is a set of services around an MQTT
-- broker. Its provisioning service (wirepas_backend_client/provisioning/) lets a new
-- node join a network: the node sends a START packet, the service looks the node's UID
-- up in its configuration, answers with a DATA packet that holds the network's address,
-- channel and keys in CBOR, encrypted where the node asks for it, and waits for a
-- DATA_ACK packet; a node that is unknown or asks for what is not allowed gets a NACK
-- packet. The library models that service, and the inventory
-- (wirepas_backend_client/management/) with which the KPI tests count the nodes they see, the
-- decoders of the messages that arrive from the network, among them those that fill it, the topics
-- that they arrive under, the networks and gateways that are known from them, and the command that
-- switches the neighbour diagnostics of a network on and off.
--
-- Base: what the other modules share. Base.Lists and Base.Dict are Python's lists,
--   slices and dictionaries over the native natural numbers, Base.Equality the class of
--   the types with a Boolean equality, Base.Int Python's int, Base.Exceptions the results of
--   code that raises.
--
-- Provisioning.Message: message.py. MessageType, Method and NackReason are the enums, a
--   Message is one of the four packets with the fields that its constructor stores,
--   payload is the property of the same name of each class. Message.Factory is
--   ProvisioningMessageFactory.map, from the transport message (the addresses and the
--   payload that it reads) to a message or the exception raised.
--
-- Provisioning.Data: data.py. A ProvisioningData is the dictionary from UID to node,
--   append and cbor_dict (the dictionary that getCbor encodes) are its methods; Data.Config
--   is __init__ after the YAML file is parsed: entry by entry, with the checks of the
--   indexes and the exceptions of missing keys. Data.Convert is _convert_to_int and
--   _convert_to_bytes.
--
-- Provisioning.Events, Provisioning.Machine: events.py and sm.py. Machine is the
--   object's state (state, status, retries, the timer, the counter, the DATA packet under
--   way, the packets sent); every handler is a function of the monad of Machine.Monad,
--   which passes the state on and keeps it when an exception is raised, as Python does.
--   run feeds a list of events to the handlers until the status is no longer ONGOING. Its
--   event queue is the list: an interleaving of packets, responses and timeouts is a list,
--   and the theorems hold for every list. No fuel is used.
--
-- Provisioning.Server: provisioning_server.py. The references that `sessions` and `send_list`
--   hold are numbers, resolved in a store, since a machine that `sessions` has dropped still
--   gets the answer to its last packet. receive, respond, take_event, elapse and end_session
--   are one round of _manage_data_queue, of _manage_response_queue, of a session's run, of a
--   timer and of the loop over the keys in loop; an interleaving of the threads is a list of
--   these actions, which acts performs, and the theorems hold for every list. Server.Routing
--   and Server.Reached state what every reached server satisfies.
--
-- Inventory: wirepas_backend_client/management/inventory.py, the count of the nodes that a KPI
--   test has seen. Inventory is the object with its set of nodes and its index, add, remove,
--   reset, wait, finish and the tests are its methods, with the current time as an argument;
--   Inventory.Sets is Python's sets of integers, Inventory.Counts the frequencies and the otap
--   state. Inventory.Reached performs any sequence of the operations. Fields that are only
--   written are left out.
--
-- Advertiser: wirepas_backend_client/messages/decoders/advertiser.py (decode) and the chunker of
--   wirepas_backend_client/tools/utils.py. The chunker's fuel is the length of the sequence:
--   every chunk takes at least one byte. Signal strengths are counted in halves of a dBm.
--
-- Decoders: wirepas_backend_client/messages/decoders/. Decoders.Struct is the part of Python's
--   struct that they use, and map_list_to_dict of generic.py. Decoders.Tlv is tlv_decoder of
--   generic.py, over any table of fields and any _tlv_value_decoder; Decoders.Ruuvi and
--   Decoders.Positioning are its two uses. Its fuel is the number of bytes and one: each round reads a
--   header before the end. A product with a unit's factor, a float in the source, is kept as its two
--   factors. Decoders.Boot, Decoders.Traffic and Decoders.Node are the reports of a fixed layout, whose
--   dictionaries Decoders.Layouts describes; Decoders.Neighbor is the loop over the neighbours and
--   Decoders.TestNw the one over the rows of test data, with as much fuel. Decoders.Endpoints is
--   MessageManager of messages/interface.py, which chooses the decoder of a packet by its endpoints.
--
-- Diagnostics: wirepas_backend_client/cli/set_diagnostics/. Diagnostics itself is
--   fea_set_neighbor_diagnostic_message_builder.py, the messages that switch the neighbour
--   diagnostics on and off. Diagnostics.Control is SetDiagnostics of
--   fea_set_neighbor_diagnostics.py, which sends them: the object, what it counts and its arguments.
--   Control.Sending has the sending, the responses, and performOperation, cut at its waiting: the
--   start, and a round of its loop each second. The operation's thread and the one of the responses
--   are a list of events. The file imports `time` in such a way that time.time() always raises:
--   perform_operation reads this clock, while start and the parts after it take any readings.
--
-- Mesh: wirepas_backend_client/mesh/. Mesh.Device is device.py, sink.py and gateway.py: the attributes
--   of a device, a gateway with its sinks and nodes and its setters, update and remove.
--   Mesh.Management is network.py and state.py: MeshManagement and the networks hold references to
--   gateways, which are numbers, resolved in a store, since a gateway is shared between them. Values
--   of attributes are texts, numbers or None; str(n) is written out digit by digit, with n + 1 rounds.
--   Mesh.Discovery has notify and the callbacks of NetworkDiscovery in mesh/interfaces/mqtt.py; what
--   the messages hold is given, since wirepas_messaging parses them, and a topic has a gateway, as
--   all that are subscribed to do. Gateway.add, which nothing calls, is left out.
--
-- Kpi: the inventory test of wirepas_backend_client/test/kpi_adv.py, which fills an inventory with
--   advertiser messages until a target is reached, and the tasks of test/manager.py that run it. What the
--   loop meets round by round (a message or a timeout with its time, or another process that sets the exit
--   signal) is a list; the loop looks at the signal before every round, and waits where the list ends. The
--   queues that it writes are lists in the manager.
--
-- Topics: wirepas_backend_client/api/mqtt/. Topics is the table of topics.py with path, constructor and
--   the messages, whose topic is built and whose class is named; Topics.Decorators takes a topic apart
--   and finds the decoder, as decorators.py does, up to the call of the decorated function.
--   Topics.Subscription is build_subscription of mesh/interfaces/mqtt.py. A text is a list of code points,
--   the names that are lowered are in ASCII, and arguments are texts.
--
-- Code outside the repository is a parameter: the CBOR encoder (cbor2.dumps), the parser of what the bus
-- carries (`from_bus` of wirepas_messaging, with the decoder's own work on it), the AES cipher in counter
-- mode and the CMAC of pycryptodome, and the random values that are drawn (a session's counter, and
-- `draw n`, the identifier that wirepas_messaging gives to the request or message number n). What is
-- asked of them is a hypothesis of the theorem that needs it: the code is as long as CMAC's are,
-- decryption undoes encryption under the same key and counter, the payload holds a message.
--
-- Not modelled: the YAML parser, the logging, the signals, the MQTT transport, and the other
-- parts of the client (the gateway shell, the callbacks of kpi_mesh.py, which forward messages between
-- queues, the decoder diagnostics.py, the MQTT handlers, the database sinks, the HTTP
-- server).

pub mod Advertiser
pub mod Base
pub mod Decoders
pub mod Diagnostics
pub mod Inventory
pub mod Kpi
pub mod Mesh
pub mod Provisioning
pub mod Topics
