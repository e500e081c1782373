-- ===== src/Lib.antt =====
-- A model of the program that shares a child's screen time between several computers, and the
-- theorems about it. Paths are those of the repository.
--
-- The hub keeps a policy and the time used; an agent on each computer reads timekpr, the local
-- daemon that enforces limits, reports to the hub, and moves the daemon's balance to what the hub
-- says is left.
--
--   Base            lists, integers, dicts, sorting and counting that the parts share.
--   Core            core/timekpr_hub_core, the code that agent and hub share:
--     Convergence     convergence.py; its child Daemon is the daemon of tests/fakes/fake_timekpr.py,
--                     which documents what a write does to the balance.
--     IntervalUnion   interval_union.py.
--     AllowedHours    allowed_hours.py.
--     Calendar        calendar.py, over the standard library's dates and their ordinals.
--     Models          models.py, the wire types.
--     EffectivePolicy effective_policy.py; a revision is kept by its two parts.
--   Agent           agent/timekpr_hub_agent:
--     Timekpr         enforcer.py: what is read of the daemon and the calls; the daemon itself is a
--                     parameter.
--     PolicyPush      policy_push.py; Labels has the texts of its labels.
--     State           state.py; File has load and save on a value of JSON, whose text, and what it makes of
--                     a number, are the library's.
--     HubClient       hubclient.py, the sync with its retry and what enrolling returns;
--                     a client without a token ends in the exception that it raises.
--     Config          config.py: agent.env as the texts that are written and read, and the hub's URL; a
--                     text is its code points.
--     Cli             cli.py: enroll as the effects that it has on the machine and how it ends, the answers
--                     from outside being the record Machine; Users has what run reads of the file that
--                     enroll wrote. Loop is run, the answers from outside being the record World; Passes
--                     has its end with --once, Watchdog its notifications.
--     Tick            tick.py; Run has the whole of run_tick, Midnight a day that begins without the hub. The hub is a function from the request to
--                     its answer, the time zones a table, and an instant is in microseconds.
--   Hub             hub/timekpr_hub:
--     Rows            PostgreSQL's insert with ON CONFLICT, delete and queries, on a table as a list.
--     Tables          db/models.py, the rows.
--     Limits          services/limits.py; Refinement is its specification, a function of user and
--                     day, and Simulation has the theorem about it.
--     Summaries       the batched queries of services/limits.py, and the limit and the time spent that
--                     services/summaries.py shows; History has the days of the statistics page.
--     Aggregate       services/aggregate.py and the loop of api/sync.py over the spans; Counters, Replay,
--                     Day and Stamps have its theorems, Windows the totals of many days and of many users.
--     Policy          services/policy.py, and the part of api/sync.py that decides whether a policy
--                     is sent.
--     DayHours        services/day_hours.py.
--     Enrollment      the codes and devices of api/enroll.py, api/auth.py, services/devices.py, and
--                     redeem_invite of services/admin_auth.py.
--     Provision       services/enrollment.py and the users of api/enroll.py: a local account becomes a user.
--     Sync            api/sync.py: locate finds or provisions the user, record_report writes, answer
--                     reads; sync_user is one turn of the loop, sync_users the loop.
--     Audit           services/audit.py.
--     Admins          services/admin_auth.py, api/admin_auth.py and api/admin/admins.py: accounts, sessions
--                     and invites; Handlers has the handlers, Race two requests at once.
--     Users           api/admin/users.py: what an administrator changes of a user.
--     Editor          api/ui/policy.py: a day's hours as the page shows them and as they are submitted; Form
--                     parses the whole form, Save saves it. What a browser's field keeps of a time is a
--                     parameter.
--
-- Each service runs in a transaction, so that one call is one step from tables to tables; Admins.Race
-- alone takes a call apart, into its query and its commit. Ids, salts and tokens that the program draws
-- at random are arguments, and so are the clock, the time zone, the hashes and PostgreSQL's range_agg.
--
-- Integers are unbounded as in Python, negative ones included. Loops are structural recursion over
-- the lists; only run's two loops take fuel, one unit for an attempt or a tick, and with --once the
-- attempts that fail and two units more are enough. Logging is left out, and so are the text of
-- error messages and the format of times in a request: whether a time is read is part of the request.
-- In Sync the lengths of the columns, the range of BigInteger and times that are not read fail the
-- request, and nothing is committed then; whether PostgreSQL's text holds a text is a parameter.
-- Elsewhere what a service writes is taken to fit its columns.
--
-- Not modelled: input and output, the rest of the web interface, the storage layer's declarations, and of the
-- command line the argument parser, what is printed and status. An enrollment that the operating system
-- breaks off, by a full disk for one, is not modelled either.
pub mod Base
pub mod Core
pub mod Agent
pub mod Hub
