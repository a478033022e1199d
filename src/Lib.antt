-- ===== src/Lib.antt =====
-- A model of loggerlib: a logging library, a console program that writes a log with it, and a
-- collector that receives a log from a socket and reports on it.
--
-- The parts. The library (logger/) formats a record as a line and passes it to its sinks. The
-- console program (app/) reads lines of input, queues what they ask for, and a worker thread
-- hands the queued events to the logger. The collector (collector/) cuts the bytes it receives
-- into lines, reads them as records and counts them. All three share common/.
--
-- common/ is Common: Text for common/Text.hpp, Endpoint for common/Endpoint.hpp, Errors for
-- common/Errors.hpp with the part of `std::error_code` that is used, and Arguments for the loop
-- over the command line, which app/core/Options.cpp and collector/core/Options.cpp both write
-- out. common/net is Common/Net: Socket and Address, over the system calls of Machine. Descriptors
-- counts the descriptors that are opened and closed.
--
-- logger/ is Logger: LogLevel and SocketProtocol for the tables of names; LogRecord for
-- logger/src/LogRecord.cpp, with Escape for the escaping, Time for the stamp and Line for the
-- whole line; Sink for `MultiSink` and `FileSink`; SinkLogger; LoggerFactory. logger/src/net is
-- Logger/Net: TcpSink with the connection that is made anew after a failure, and UdpSink.
--
-- app/ is App: Options, Usage for the texts of app/core/Options.cpp, InputParser, EventQueue,
-- LogWorker, ConsoleApp and Main for app/src/main.cpp. A call that holds the mutex of the queue is
-- one step of the model. A wait is a round that changes nothing, so `App.LogWorker.Runs.Run` has
-- every interleaving of the two threads; `App.ConsoleApp.run` is given the rounds that the worker
-- makes between the steps of the input.
--
-- collector/ is Collector: LineReader, Statistics, Options, Usage, CollectorApp for what is done with
-- a line, with Run for the loop; Main for collector/src/main.cpp; and the receivers of
-- collector/core/net: UdpReceiver, and Net with Poll for the wait that both begin with, Listener,
-- TcpReceiver and Receiver. The loop takes the receiver as a parameter, the interface IReceiver.
--
-- How the code is read. A `char` is its unsigned value, so a text is a list of numbers; literals
-- are ASCII. Integers of fixed width wrap around where the code lets them; sizes of texts in
-- memory do not. Names are those of the code in snake case, and a C++ prefix `S`, `E` or `T` is
-- left out. An `std::error_code& ec` is a further argument and a further result. A lambda or a
-- constructor of a `std::variant` is a constructor or a clause here.
--
-- Parameters. The calendar of the C library (`gmtime_r`, `timegm`) is `Calendar`, with its
-- documented behaviour in `IsCalendar`, which the Gregorian calendar of
-- Logger/LogRecord/Gregorian satisfies. The clock, the writing to a stream, the opening of files
-- and sockets, the logger that the worker calls and the texts of error codes are arguments too; a
-- state `W` stands for what they change. The arithmetic on `double` in the report is an argument.
-- The system calls on sockets and the clock of the sinks are one function, `Environment`, from a
-- call to its answer; a `Machine` is its state, with `errno` and the trace of the calls made.
--
-- Fuel. `Collector.LineReader.feed` takes one round for each byte of the chunk and one more; each
-- round takes a byte off. So does `Collector.UdpReceiver.split_datagram`.
-- `Common.Text.Numbers.to_string` takes the number and one more. `stop` of the worker takes one
-- round for each queued event, and one that sees the queue empty. A wait or a send of `TcpSink` is
-- repeated when it is interrupted or partial, `patience` times at most; a run that needs more has
-- no result in the model, so `patience` is an argument of whoever uses the sink.
-- `TcpReceiver::acceptClients` goes on past a client that cannot be set up, which takes fuel as well.
-- The loop of `CollectorApp::run` takes one unit for each round.
--
-- Not modelled: Common::SOverloaded, which a function by clauses stands for; the moves between
-- objects, beyond who owns a descriptor; exceptions of the standard library, such as a lack of
-- memory; the installing of the signal handlers, for which the flag of the loop stands; overflow of
-- the clock; and the tests.
pub mod Prelude
pub mod Common
pub mod Logger
pub mod App
pub mod Collector
