-- ===== src/Lib.antt =====
-- A model of rosbag2_dynamic_recorder: the Python library packages/dynrec/dynrec, which controls a bag
-- recorder over ROS services and reads the bags it writes, what the command line and the page server
-- decide on top of it, and the C++ recorder, packages/rosbag2_dynamic_recorder, that they control.
--
-- The parts and the files:
--   Base        lists, sorting, integers, counting and text that the parts share
--   Results     packages/dynrec/dynrec/results.py: messages as events, statuses, topic changes and
--               profiles
--   Bag         packages/dynrec/dynrec/bag.py: windows (merge_windows, intersect_windows, overlap),
--               the windows that events locate (subscribed_windows, pause_windows), live time and
--               rate (live_seconds, rate_over), holes (gaps_in, unexplained_gaps), the report
--               itself (describe, _warnings) and its plain data (as_dict)
--   Errors      packages/dynrec/dynrec/errors.py: the exceptions as one type, and the results that
--               carry them
--   Topics      packages/dynrec/dynrec/topics.py: parse_topic_specs, require_a_selection
--   Discovery   packages/dynrec/dynrec/discovery.py: recorder_nodes, node_name, choose_recorder
--   Schedule    packages/dynrec/dynrec/schedule.py: parse_time, _next_wall_clock, _split, parse_mode,
--               set_stamp, apply_schedule
--   Client      packages/dynrec/dynrec/client.py: Recorder, its one path to the recorder (_call,
--               _client_for, _checked), every method that calls a service, the callbacks (on_status,
--               on_event, wait_for), and the connecting with its polling for recorders
--               (_poll_for_recorders, discover, __init__, close)
--   Services    packages/dynrec/dynrec/services.py: which type of a service is taken, and its name
--   Cli         packages/rosbag2_dynamic_recorder_cli/rosbag2_dynamic_recorder_cli: what api.py prints
--               of a topic change, the exit codes (api.py, verb/info.py), the text of format.py, and
--               the verbs (verb/*.py), each with its method and what it prints
--   Ui          packages/rosbag2_dynamic_recorder_ui/rosbag2_dynamic_recorder_ui/ui_node.py: the
--               actions of the page with the clock that their times are read by, the state that the
--               page shows, the fetching of profiles, and what GET and POST answer
--   Launch      packages/rosbag2_dynamic_recorder/launch/dynamic_recorder.launch.py: the arguments as
--               parameters of the recorder
--   Recorder    packages/rosbag2_dynamic_recorder/src: Scheduler (scheduler.cpp), Losses
--               (loss_accounting.cpp), Selection (topic_selection.cpp), Storage (storage_guard.cpp),
--               Writer (the stage of bag.cpp), Node (dynamic_recorder.cpp), Requests, TopicRequests
--               and Service (recorder_services.cpp: the handlers, and the services by their names),
--               Profiles (recorder_config.cpp: declare_profiles), Guards (recorder_events.cpp: the
--               storage timer)
--   Tests       the theorems at concrete inputs
--
-- A function keeps the name of the source, and so do fields and words; a method `m` of Recorder is
-- `m_op`, and all of them together are `run`. A bag report is computed from events (Results) and from
-- the stamps of messages. The client builds its requests with Topics and Schedule, calls the recorder
-- and reads the reply with Results. The verbs of the command line and the actions of the page are
-- calls of `run`; the page reads times with Schedule by the recorder's clock. The client takes the
-- recorder as a parameter, `serve`; Recorder.Service has the one of this repository, and there the
-- client is run against the node.
--
-- Choices:
--   - A stamp is its exact number of nanoseconds, where the program divides by 1e9 and goes on in
--     floats; a number of seconds that a caller gives is a fraction. Rounding errors of floats are
--     not modelled. The max(0.0, ...) of the source is the subtraction of natural numbers, and
--     where a sum can be negative before its max it is an integer.
--   - A window covers the times from its start up to, not including, its end.
--   - An exception is a value of Errors; the texts of the messages stand as a reason with what it
--     quotes. Other float64 fields are of a type that is a parameter.
--   - The recorder with rclpy is a parameter of Client, `serve`: it gives a reply, or says that the
--     service is missing or late, and goes to its next state. The log of the calls is there for the
--     theorems; the program keeps none. Return codes are not negative.
--   - Loops run over lists, except two. The polling for recorders has as much fuel as there are periods
--     of 50 ms in the timeout, and two; this is enough because each sleep moves the clock by a period
--     at least. The fetching of profiles has as much fuel as rclpy.ok() is true, and stops with it.
--   - Python's datetime, time zone, ISO 8601, time.monotonic, the spellings of a float beyond plain
--     decimals, the format {:g}, strftime, json and ast.literal_eval are parameters. The digits that
--     `\d` and int read are those of ASCII. A number of seconds in a text is read exactly; which
--     numbers are past the largest float is a parameter.
--   - An exception that is no DynrecError is a `fault` of Errors where the program can raise one:
--     OverflowError and ValueError of a float that is no number of seconds or of a datetime that has no
--     timestamp, and the AssertionError that the message class raises for a field out of its range.
--   - In the recorder, what rclcpp, rosbag2, std::regex, the file system and the configuration give is a
--     parameter (Outside, search, dir, percent_of). `Outside` has the two readings of the clock that a
--     schedule by the node's clock makes, one for the delay and one for the time that it is due. A function of the node takes one step; the steps of
--     the scheduler, the losses, the guard and the writer with what may come between them are
--     relations, so an invariant holds for every sequence. The counters wrap at 2^64; times in
--     nanoseconds are integers, without the overflow of int64 that a clock past the year 2190 would
--     need. The status is built when it is asked for; publishing it is left out. Names are sorted by
--     the numbers of their characters, which for UTF-8 is the order of bytes that std::sort has.
--   - A payload of the page has fields of the types that the page sends.
--
-- The data of a bag file comes from rosbag2_py: describe gets the topics, the messages in order and
-- deserialize as parameters.
--
-- Not modelled: reading a bag file (rosbag2_py), the threads of rclpy and the locks between them, the
-- declaration of command line arguments (argparse), the construction of the page's node and server,
-- the recorder's parameters other than its profiles, its timings, which of its events are published or
-- written, its deferred events, the web page (JavaScript), the launch description, the configuration of
-- the documentation, and the HTTP transport.
pub mod Base
pub mod Bag
pub mod Results
pub mod Errors
pub mod Topics
pub mod Discovery
pub mod Schedule
pub mod Client
pub mod Cli
pub mod Ui
pub mod Launch
pub mod Services
pub mod Recorder
mod Tests
