-- ===== src/Lib.antt =====
-- Log Courier: the path of a log line from a file to the registry, modelled and verified.
--
-- Log Courier reads log files, cuts them to events and ships the events to servers. A harvester
-- (lc-lib/harvester) reads lines, a codec (lc-lib/codecs) joins or filters them to events, the
-- spooler (lc-lib/spooler) gathers events to spools, and the publisher (lc-lib/publisher) makes a
-- payload (lc-lib/payload) of each spool and hands it to an endpoint (lc-lib/endpoint). The
-- servers acknowledge events in any order; the publisher gives what is acknowledged to the
-- registrar (lc-lib/registrar) in the order of the events, and the registrar keeps for each file
-- the offset from which reading resumes. The prospector (lc-lib/prospector) finds the files and
-- starts their harvesters, and a transport (lc-lib/transports) carries the payloads of an
-- endpoint. The parts are routines that talk by channels: what a routine receives is an input of
-- its model, and what it sends is part of its result or of its state.
--
-- Files:
--   Common: names that all share; lists, integers and maps over the native numbers.
--   Core: the descriptor of an event (lc-lib/core/event.go).
--   Harvester/LineReader: lc-lib/harvester/linereader.go. NewLineReader is new_line_reader,
--     ReadSlice is read_slice with its loop read_loop, fill is fill, Reset is reset. Input states
--     what io.Reader promises; Fill, Parts and Lines are about one call, Calls about a sequence of
--     calls.
--   Harvester/Reading: lc-lib/harvester/harvester.go. readline and performRead are readline and
--     perform_read, without the measurements. Endings is about what the codec gets.
--   Harvester/Chain: lc-lib/codecs/codecs.go and the chain that NewHarvester builds; what reaches
--     the last callback is through. Harvester/Fields: the event of eventCallback as make_event.
--     Lookups is about its keys.
--   Harvester/Session: the routine of harvester.go. statCheck, takeMeasurements and eventCallback
--     are stat_check, take_measurements (in the steps periodic and measure_rest) and
--     event_callback with its loop event_loop. In Rounds, NewHarvester is new_harvester,
--     prepareHarvester is prepare_harvester, the beginning of harvest is begin_harvest, its loop
--     harvest_loop and its end finish; handleTruncation is handle_truncation, and performRead is
--     perform_read with dispatch and after_measure. Kept is about measurements, Ends about how far
--     the loop comes, Delivery about one read, Resume about the loop, Blocked about the wait for the
--     output, Truncation about a file that became shorter.
--   Prospector: lc-lib/prospector, with the identities of lc-lib/registrar/filestate.go. Info is
--     info.go and errors.go. State has the state and the single statements; alloc is the making of
--     an info. Scan is processFile as process_file, in the steps process_error, process_new,
--     process_known and conclude, with lookupFileIds as lookup_file_ids and flagDuplicateError as
--     flag_duplicate_error. Rounds is runOnce as run_once, with its cleaning as clean, and
--     NewProspector as new_prospector. Index, Files, Steps, Moves, Visits, Iterations and Loading
--     are about the index, Harvesters, Turns and Launches about the starts of harvesters, Renames
--     and Cleaning about one file.
--   Codecs/Patterns: lc-lib/codecs/patterncollection.go. Set is set, Match is match.
--   Codecs/Plain, Codecs/Filter: lc-lib/codecs/plain.go and filter.go, each method under its name.
--   Codecs/Multiline: lc-lib/codecs/multiline.go. Event is event, in the steps before_line,
--     start_line, cut_loop and finish_line; flush is flush; a tick of deadlineRoutine is
--     deadline_tick. Bounds is about the cutting loop, Shipping and Cutting about what is handed
--     to the callback, Lines about one line, Runs about any lines and ticks.
--   Spooler: lc-lib/spooler/spooler.go. A round of Run is step; sendSpool, reloadConfig and
--     resetTimer are send_spool, reload_config and reset_timer. Order is about what is sent,
--     Limits and Rounds about its sizes, Config about new configurations.
--   Publisher: lc-lib/publisher/publisher.go, and processAck of lc-lib/endpoint/endpoint.go. OnAck
--     is on_ack with its loop release; sendEvents is queue_events, pullBackPending is
--     pull_back_pending, a round of tryQueueHeld is resend. Release is about the loop, Updates
--     about one payload, Holds about one acknowledgement, Order about any steps.
--   Publisher/Delivery: publisher.go together with endpoint.go, sink_endpoint.go, sink_process.go
--     and sink_status.go of lc-lib/endpoint: queuePayload, QueuePayload, CanQueue and ForceFailure
--     are queue_payload, best, can_queue and force_failure; sendPayload, sendEvents, tryQueueHeld
--     and pullBackPending are send_payload, send_events, try_queue_held and pull_back. In Steps, a
--     round of runOnce is step, processAck is acknowledge. Sending, Accounts and Order are about the
--     events in each call, Runs about any run, Stuck about a timeout.
--   Publisher/Loadbalance: lc-lib/publisher/method_loadbalance.go, with AddEndpointAfter and
--     MoveEndpointAfter of lc-lib/endpoint/sink_list.go as add_endpoint_after and
--     move_endpoint_after.
--   Endpoint: lc-lib/endpoint/status.go, sink.go, sink_status.go and sink_list.go. markActive,
--     moveFailed, recoverFailed, ShutdownEndpoint, removeEndpoint and AddEndpoint are mark_active,
--     move_failed, recover_failed, shutdown_endpoint, remove_endpoint and add_endpoint. Lists is
--     about what the lists hold, Steps about any steps. Reload has ReloadConfig as reload_config.
--     Timeouts is sink_timeout.go, Armed is about the functions of the timeouts, Due about what fires.
--   InternalList: lc-lib/internallist/list.go, each method under its name, on a heap in which 0 is
--     the root of the list; link is the body of insert, unlink that of remove. Links and Rings are
--     about the links, Operations has what each operation is to do to a list, Lists is about any
--     operations.
--   Transports: lc-lib/transports/event.go.
--   Transports/Tcp/Wire: Write and Ping of lc-lib/transports/tcp/tcp.go as write and ping, with
--     frame as what the compressor gets.
--   Transports/Tcp/Receiver: receiver and receiverRead of tcp.go as receiver and receiver_read; a
--     round is after_header and after_body. Reads is about one read, Messages about all that
--     arrives.
--   Transports/Tcp/Sender: sender of tcp.go, and Write of wrap.go as write. Writes is about what
--     the socket takes.
--   Transports/Tcp/Controller: controller, connect, disconnect and reconnectWait of tcp.go, what
--     they do being a list of actions. Sockets is about the order of the actions.
--   AddressPool: lc-lib/addresspool/addresspool.go. Next is next, populateAddresses is
--     populate_addresses, populateLookup is populate_lookup and processSrv process_srv. Lookup is
--     about what is found, Rotation about what Next gives.
--   Payload: lc-lib/payload/payload.go, each method under its name (Events is unacked). Invariant
--     is about the counts, Acks about acknowledgements.
--   Registrar: lc-lib/registrar. The Process method of each event is process_ack,
--     process_discover, process_renamed and process_deleted; toCanonical is to_canonical; Run is
--     run. View is about the states, Canonical about the registry file.
--   The files called Tests hold short runs and instances of the theorems.
--
-- Conventions: a panic is a result none or panic. Lengths, offsets and times are natural numbers,
-- taken to be below 2^63; where the code may go below zero, the model has an integer. A text is
-- the list of its bytes. A pointer that is only compared is a number.
--
-- Fuel: cut_loop, the read_loop of the line reader, and receiver take fuel. The cutting loop gets
-- the length of the line and two, and each round but the first makes the text shorter. The reading
-- loop gets the longest line and two, and each round reads a byte or ends. The receiver gets the
-- number of the bytes that arrive and one, and each message has a header. That this is enough is
-- part of the theorems, which say that the calls return.
--
-- Parameters: regular expressions are functions, `compile` being regexp.Compile. The reader of the
-- line reader is any that keeps the contract of io.Reader, and that gives a byte or an error when
-- there is room. `grow` is the capacity that append gives a full slice. Which channel a select
-- takes, and the time that the clock shows, are inputs.
--
-- The lookups of names are functions, and may differ from call to call. The compressor of the
-- messages (zlib) is a function. In a range over a map the elements that are visited first are an
-- input. The encoding of an event (Encode of lc-lib/core/event.go, which is JSON) is a function that
-- may fail.
--
-- In a harvester one call of takeMeasurements reads the clock once, and times are milliseconds. The
-- file is a reader that keeps the contract of io.Reader, and `rewind` is its seek to the beginning.
-- The timer of a multiline codec does not fire between two lines of a chain.
--
-- In the transport, a read of the socket gives bytes or an error, not both; the endpoint takes
-- every event of the receiver; a handshake that fails closes its own socket. In the prospector a
-- call of processFile is atomic, as its lock ensures, and the sizes and times of the files are
-- what os.Stat answers.
--
-- Not modelled: the dial, TLS and the certificates of the transport, and the reading of its
-- options (lc-lib/transports/tcp/factory.go), the latencies and pings of endpoints (lc-lib/endpoint),
-- the keepalive and the speeds (lc-lib/publisher), the methods failover and random (lc-lib/publisher), the patterns of paths and
-- the stop of the harvesters at the end (lc-lib/prospector), the harvester's speeds
-- and its entry for the administration (lc-lib/harvester/harvester.go), the configuration (lc-lib/config), and
-- the administration (lc-lib/admin, lc-admin). In the multiline codec the lock is not modelled: a
-- tick falls between two lines, as the lock ensures for `previous`, for which alone the timeout is
-- meant.
mod Common
pub mod Core
pub mod Payload
pub mod Registrar
pub mod Codecs
pub mod Harvester
pub mod Spooler
pub mod Publisher
pub mod AddressPool
pub mod Endpoint
pub mod Transports
pub mod Prospector
pub mod InternalList
