-- ===== src/Lib.antt =====
-- GAuth for Python: a model of the authorization library under gauth/, and what makes it
-- correct.
--
-- A client asks `GAuth` for a grant, exchanges it for a token, and processes transactions under
-- the token. `GAuth` is built on a token store, an audit logger and a rate limiter, which it is
-- given. Beside it stand a circuit breaker with retries around it, a policy engine, powers of
-- attorney, a manager of services and their dependencies, an event bus, time ranges, two more
-- token stores and a second set of limiters, each used on its own.
--
-- Which file models which part:
--   Base                      texts, lists, integers and dictionaries that the parts share
--   Core.Types                gauth/core/types.py and the data of gauth/core/config.py
--   Core.Exceptions           the exceptions, and calls that may raise: `Act S A` takes a state and
--                             gives a result and the state that was reached, also when it raises
--   Core.Interfaces           the abstract classes TokenStore, AuditLogger and RateLimiter
--   Core.Gauth                gauth/core/gauth.py, over any implementation of the three; its
--                             children hold the contracts of the parts and the theorems
--   Token                     gauth/token/store.py, MemoryTokenStore
--   Audit                     gauth/audit/logger.py, MemoryAuditLogger
--   Ratelimit                 gauth/ratelimit/limiter.py, the token bucket and both windows
--   Tokenstore                gauth/tokenstore/store.py and memory.py, whose reads drop what expired
--   Rate                      gauth/rate/limiter.py, the sliding window with quotas
--   Circuit                   gauth/circuit/circuit.py, CircuitBreaker
--   Authz                     gauth/authz/types.py, authz.py and conditions.py
--   Store                     gauth/store/types.py and memory.py, the store with three indexes
--   Resources                 gauth/resources/types.py and the store of configurations in memory
--   Resources.Sort            gauth/resources/manager.py, the topological sort of services
--   Resources.Manager         gauth/resources/manager.py, ResourceManager
--   Timerange                 gauth/util/time_range.py
--   Poa                       gauth/poa/types.py, authorization.py, principal.py and
--                             client.py
--   Resilience                gauth/resilience/patterns.py and circuit.py
--   Events                    gauth/events/events.py, EventBus
--
-- State and operations. A class is a record of its attributes and a method is a function of the
-- same name (without a leading underscore) that takes and gives back the record. The bodies of
-- `try` statements have names of their own (granting, issuing, checking, processing, revoking,
-- evaluating), and `catch` puts the handlers around them. Dictionaries are association lists in
-- the order of insertion, and sets are lists without repetition. Methods that hold a lock or
-- never await run whole; Circuit.run and the functions `serve_all` run any sequence of them, which
-- stands for the interleavings of threads and tasks. The tasks and threads of a bulkhead
-- interleave within the updates of its counters, which no lock guards, so they are a step relation
-- with the reads and the writes apart. A step of the event bus runs from one wait of its loop to
-- the next, so other calls fall between two handlers of one event.
--
-- Numbers. Times are microseconds since the epoch and durations are microseconds (whole seconds
-- in Ratelimit.FixedWindow); each reading of the clock is an argument, so nothing is assumed of
-- it unless a theorem says so. Where the source subtracts clock readings, the model adds on the
-- other side or uses integers. The token bucket of the source counts in floats; here a token is
-- `time_window` units and the sums are exact, so rounding is not modelled. Ids from uuid are
-- arguments. Only the depth-first search of Resources.Sort takes fuel, one more than there are
-- configurations, which bounds the depth of its path; Resources.Sort.Correct shows that it is
-- enough. Retries run over the number of attempts, all other loops over lists.
--
-- Parameters. The three parts of `GAuth` are arguments, and what it relies on is in
-- Core.Gauth.Specification; Token.Memory and Audit.Memory show it of the stores in memory. The
-- conditions take `ipaddress`, `re` and `str.upper` as arguments, with nothing assumed of them.
-- The function that is retried, the sleeps and the world that they change are arguments of
-- Resilience, and the receivers of events are arguments of Events.
-- A policy's conditions are any implementation of the abstract class, which may raise; the clock
-- reads the same while the policies are listed, and the same while they are evaluated.
--
-- Not modelled: what talks to Redis, files or HTTP, the Python logger, conversion to and from
-- dictionaries, environment variables, callbacks on a change of state (their exceptions are
-- caught), asyncio's own timeouts, functions that call back the event bus which calls them, and
-- the packages transaction, resource, auth, mesh, service, metrics, monitoring, common,
-- integration and demo.
pub mod Base
pub mod Circuit
pub mod Core
pub mod Token
pub mod Audit
pub mod Ratelimit
pub mod Authz
pub mod Store
pub mod Tokenstore
pub mod Rate
pub mod Resources
pub mod Timerange
pub mod Poa
pub mod Resilience
pub mod Events
