-- ===== src/Lib.antt =====
-- Homecontrol-Server: a home automation server. Each manager (lamps, sensors, schedules, presence,
-- the car, HTTP) owns a thread with a queue of received and a queue of sent messages. The main thread
-- carries every sent message to the threads that subscribed to its id; a message may carry a callback
-- for one direct answer, or a function that the receiving thread runs.
--
-- Files, with the code that they model (paths from the repository's root):
--   Common: numbers, lists, texts and `std::map` (OrdMap), which the other files share.
--   Data: homecontrol/MessageMetaData.h (Meta), Message.h and Message.cpp (Message), the values of
--     Sensor.h, LightState.h and the like (Devices), TeslaDataStructs.h (Vehicle). `std::any` is the data
--     type `Value`; a `std::function` is the record of what it captures (`Closure`, `Answerer`). What a
--     handler sends or answers is a list of `Effect`s.
--   Queue: homecontrol/Queue.h. Push, Pop and Size hold the mutex, so each is one step.
--   Subscription: homecontrol/Subscription.cpp and ISubscribe.h.
--   Runtime: homecontrol/Thread.cpp and PreParseMessagecpp.cpp (`clear_queue`, `dispatch`,
--     `pre_parse_msg`); Runtime/Routing: homecontrol/ThreadManager.cpp. A wait on the condition variable
--     ends with the messages that have arrived; their grouping is an argument. Runtime/Synchronous:
--     SynchronosThread.cpp and SynchronosThreadManager.cpp.
--   Program: homecontrol/ProgramManager.cpp, with the subscriptions of the managers' constructors; Loop:
--     the main loop, and the loop of Timer.cpp. Wiring, Scheduled and Measured join
--     the managers by the main loop.
--   Presence, Sensors, Schedule, CommandLine, Telldus, Http: the managers of the same names;
--     CommandLine/Pipe reads the output of a command.
--     `handle_message` is `HandleMessage`, `callback` is `Callback`.
--   Lights: homecontrol/Light.h; Lights/Hue: HueManager.cpp, with HueClient.cpp (Client);
--     Lights/Telldus: TelldusManager.cpp, RemoteTelldus.cpp and the lamps of
--     TelldusCommandLineManager.cpp.
--   StringTools: homecontrol/StringTools.h and StringTools.cpp; Hex its hexadecimal numbers.
--   Tesla: TeslaConnection.cpp (Connection), the parsers of TeslaManager.cpp (Website), its state
--     machine with OneShotTimer.cpp (Reader). The interleavings of the callback and the timer's thread
--     are the relation `Step`; which timers may end between their start and the store of the waiting
--     state is an argument.
--   Rest: homecontrol/RESTApi.cpp. Sonos: SonosManager.cpp, SonosClient.cpp and SonosConnection.cpp.
--   Network: homecontrol/TCPHandler.cpp; Sending is `sendMessage` with its asynchronous writes, whose
--     interleavings are sequences of `Event`s; Connections the handles and
--     `accept`, Receiving the read handler with networkReceiveHandler.cpp; Requests: networkMessageHandler.cpp.
--   Serialize: homecontrol/serializeFunctions.cpp.
--   Json: what the parsers and writers ask of the JSON library; Json/Helper: homecontrol/JsonHelper.cpp.
--   Configuration: homecontrol/Configuration.cpp, and the records of IGetConfiguration.h that no manager
--     keeps. Configuration/Document is the text that a configuration is written as.
--   Remote: the JSON form of messages of Message.cpp (Wire), and RemoteManager.cpp (Manager).
--   JsonManager: homecontrol/JSONManager.cpp and MessageWithDirectAnswer.h. What answers within the wait
--     is an argument.
--   Oauth2: homecontrol/OAuth2.cpp, the session and its tokens; Listener the redirects, whose tasks end
--     later and in any order. `GetAccessToken` calls itself and runs on fuel, which is not always enough.
--   Tests: the theorems at concrete inputs.
--
-- Numbers are natural numbers or `ℤ`; 32-bit integers wrap where the code adds to them or converts
-- them. A `double` is its 64-bit pattern. Loops without a bound of their own run on fuel: the inner loops
-- of a thread and of the routing on the size of a queue, the splits of a text on its length and one more
-- (into parts of a positive size), the reads of a pipe on the length of the output, those of a socket on
-- the length of the buffer, the search for a handle on one more than there are connections. Each of
-- these is shown to be enough.
--
-- Arguments stand for code outside the repository: JSON, the exchange over HTTP, the check of an
-- address, `async_read_until`, `popen`, the file of the configuration, the clock, the split of a query,
-- the conversion and the product of `double`s, the authorization and the refresh of tokens, the replies
-- whose wait throws, and in the manager of the lamps the bridge behind `ILightControl`. What the bridge of
-- the Hue documents of its answers is the record `IsBridge`.
-- Not modelled: the log, the HTTP server, the browser that OAuth2 opens, the printing of
-- floats by `StringTools`, a callback that comes after the wait of `SendAndRead`, the
-- waits between the rounds of a loop, the destructor of a connection, and the start and the stop of the program.
pub mod Common
pub mod Data
pub mod Queue
pub mod Subscription
pub mod Runtime
pub mod Presence
pub mod Program
pub mod Sensors
pub mod CommandLine
pub mod Telldus
pub mod Lights
pub mod StringTools
pub mod Schedule
pub mod Serialize
pub mod Json
pub mod Tesla
pub mod Http
pub mod Network
pub mod Remote
pub mod Oauth2
pub mod JsonManager
pub mod Configuration
pub mod Rest
pub mod Sonos
pub mod Tests
