-- ===== src/Lib.antt =====
-- py20305, a client of IEEE 2030.5: the logic that decides over events and what it stands on.
--
-- The program polls a server for DERControl events, keeps them in a store, decides which event holds
-- which mode on which device, fires timers on the server's time, and reports. The parts modelled are
-- those that decide; they meet in the event record of the store, which supersession, the timers and
-- the tracker of modes read, and in the server's clock, by which events are judged and pruned.
--
-- Prelude: numbers, tests, integers, dicts (association lists in the order of insertion, as Python
-- keeps them) and sets (lists read by membership), with the lemmas the parts share.
-- Events: src/py20305/events/.
--   Control: the fields of a DERControl that are read (models/sep/sep.py).
--   Store: state_machine.py, EventState, EventRecord and EventStore, a method a function.
--   Supersession: supersession.py. judge is what compute_supersession does with one pair, visit one
--     visit of its loop body, inner and outer its two loops with the set of checked pairs, and
--     programs_sharing, later_of and bisect_right the index that chooses the pairs.
--   Dderc: dderc.py, DdercTracker. ActiveModes: active_modes.py, ActiveModeTracker.
--   Randomization: randomization.py, RandomizationCache. A number drawn is an argument.
--   Timers: timers.py, EventTimerManager. A run of a timer is the list of what its rounds meet.
--   Processor: processor.py, _run_supersession over the store as apply_results over the results, and
--     the helpers that end an event; what it asks of the other parts is the list of effects.
--   Life: the handlers of processor.py over one World, cut at their awaits. Handlers has activation,
--     completion, cancellation, the two halves of a result of supersession, dispatch and the loss of
--     communications; Discovery the body of the loop of process_controls, the reconciliation and the
--     pruning; Fallback the decisions of _apply_dderc_fallback; Moves any sequence of segments. A
--     dispatch through a group_lookup and _apply_initial_dderc are left out.
--   Tariff: tariff.py, the active interval and a poll; Windows and Active, Relays prove what they do.
--   ModesBitmask: modes_bitmask.py, with doe_limits of models/csipaus/elements.py.
--   CurrentControls: current_controls.py, CurrentControlsTracker.
--   Response: response.py. Its codes and gate; Tracker: ResponseTracker; Callers: the concurrent callers
--     of post_der_response, whose moves are what one of them does between two awaits.
-- History: src/py20305/history/. Intervals: IntervalHistory of intervals.py for one device; Ideal is
--   the meter without intervals that Meter compares its sums with.
-- Client: src/py20305/client/. CommLoss: comm_loss_simulation.py, the requests as steps. PollRate:
--   poll_rate.py. Polling: polling.py, PollScheduler, its rounds cut at the await of a callback. Retry:
--   retry.py, with_retry over the sequence of what the calls of its operation do. State: state.py, the
--   mapping of programs to devices and the cache of versions. Timebase: timebase.py, ServerTimebase.
-- Subscription: src/py20305/subscription/manager.py, SubscriptionManager. Subscription itself has the
--   calls on one subscription, Reconcile the two reconciliations, Upkeep the renewals, the checkpoint and
--   the notifications. Files says what a sound dict is, Changes what an operation may do to it, and Steps
--   and Reconcile.Loops that the operations do no more; Course runs them in any order.
-- Wire: src/py20305/client/dnssd/wire.py. Wire itself has names, Messages the queries and responses.
-- Telemetry: src/py20305/telemetry/. Checkpoint: checkpoint.py, the data of a registered reading, over
--   Json, what Python's json reads and writes. ScaleFactor: _clamp_int16 of scale_factor.py. Scaling:
--   scaling.py.
-- Security: compute_sfdi of src/py20305/security/identity.py.
-- Diagnostics: src/py20305/diagnostics.py.
--
-- State is passed on and returned; a KeyError, ValueError or OverflowError is a value. An
-- operation without an await is one step; the wait of a timer and the retries, which await, go round
-- by round; in Subscription a whole operation is one step; in Events.Processor one result of
-- supersession is one step, its awaits included, and in Events.Life it is two; Events.Response and
-- Events.Life take the segments in any order. An object that the source shares and mutates, the event
-- record, is read through its key in the store: in Events.Life a handler that holds the record of an
-- event is not followed once the event was pruned, where the source keeps the object and raises a
-- KeyError when it changes the state.
--
-- Loops are structural but for five. name_loop of Wire takes 130 rounds for each byte of the message
-- and two more: a round adds one of at most 128 labels or jumps back. retry_loop of Client.Retry takes
-- one round for each attempt the policy allows: every round that goes on uses one up. clamp_loop of
-- Telemetry.ScaleFactor takes the magnitude of the number: each round makes it smaller. digit_sum takes
-- as many rounds as the number. integrate_loop of History.Intervals takes as many as the seconds to
-- cover: each round covers one or more. Each is proved to be enough.
--
-- Floats: readings of the clocks in Client.Timebase are whole numbers of one unit, as times are in
-- Client.Polling, and times and readings in History; Telemetry.Scaling has the float as a parameter;
-- round(v / 10) of an integer is exact, which Python's is below 2^50.
-- Not modelled: network, HTTP, XML and SQL, the generated classes of the schema, drivers of
-- devices, log lines and the texts of messages, since they are input and output or third-party code.
pub mod Client
pub mod Diagnostics
pub mod Events
pub mod History
pub mod Prelude
pub mod Security
pub mod Subscription
pub mod Telemetry
pub mod Wire
