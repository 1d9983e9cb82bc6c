-- ===== src/Lib.antt =====
-- The API of cpde-web (api/app), a planning tool for business pursuits: who may see and change which
-- pursuit, how the probability of winning (Pwin) of a pursuit is scored, recorded and blended with
-- that of the pursuit that it depends on, and how a pursuit is bid and closed.
--
-- How the parts correspond:
--   Store       the tables of ddl/01_schema.sql that the handlers use, as lists of rows; Store.Rows
--               says what an UPDATE does to a search, Store.Valid states the schema's constraints
--   Auth        api/app/auth.py, login and logout of api/app/main.py: sessions and roles
--   Scope       the scope functions of ddl/07_scope.sql, and the resolvers of api/app/plan_scope.py
--               that check an id or a code against a candidate set
--   Dependency  resolve_pursuit_dependency of api/app/plan_scope.py
--   Pwin        apply_dependency_blend of api/app/recalc.py, and
--               auto_clear_dependents_of_outcome of api/app/plan_scope.py
--   Scoring     api/app/scoring.py and api/app/fee.py: the cached tables, lookups and fees
--   Assess      the append-only write of an assessment that the handlers share
--   Bhptw       the two submissions of api/app/routers/bhptw.py
--   Questionnaire, Recalc    recalculate_pwin of api/app/recalc.py and the routes of
--               api/app/routers/recalc.py; the engine is a parameter
--   Lifecycle   set_bid and set_outcome of api/app/routers/write.py
--   Patch       patch_pursuit of api/app/routers/write.py: the checks of an edit, its UPDATE, and what
--               it does to the Pwin (sole source, a reversion to Pre-BH)
--   Answers     set_questionnaire_answers of api/app/routers/write.py with its cascaded options
--   Staffing    api/app/routers/staffing.py: phases, months and the client's escalation rates
--   Users       the two writing routes of api/app/routers/users.py: a user's row, role and units
--   MarketSync  api/app/market_sync.py: the codes of new markets, and what a sync writes
--   EngineClient    api/app/engine_client.py: the cached keys and the calls; the parameter store and
--               the HTTP exchange are parameters
--   Escalation  api/app/staffing_escalation.py: the growth of salaries
--   Requests    the writing routes of the routers that api/app/main.py includes, in any sequence
--   Prelude, Sample    shared notation and lemmas, and the data of the tests
--
-- A handler is a function from the store to a result and a store (Prelude.Monad.Tx). An
-- HTTPException is a value with its status and detail, and what was written before it stays
-- written, until the `transaction` around the handler, which stands for tenant_tx of
-- api/app/db.py, undoes it. Handlers get the id of a caller whose role was checked
-- (Auth.require_role). A UUID is a number; a text that should hold one is blank, malformed or the
-- number. Tenants are separated by the database, so a store is that of one client. Times are
-- numbers, in microseconds where a client sends one back, and dates are their ordinals.
--
-- Floats and decimals are a type `Num` with the operations that the code uses (Prelude.Num.Float);
-- the laws that the proofs use are those of finite doubles. Prelude.Thousandths is an instance.
--
-- Bounds: the walk up the tree of units has the number of units as its fuel, which is enough since a
-- chain that meets a unit twice can be cut. The walk along the dependencies is cut after 50 rows, as it is
-- in the code's query. The loop over the months of a phase has the ordinal of its end as its fuel, since
-- a month starts later than its number; so has the search for the month of a date. The search for a free
-- code has two rounds more than there are codes.
--
-- Where the model stands beside the code: PostgreSQL rounds a value to the scale of its column. For an
-- escalation rate that conversion is the parameter `column`; `pwin` and `base_pwin`, which are
-- NUMERIC(9, 6), are kept as they are computed. A month is a number, so the turn of the year is that
-- of `date`, and December of year 9999, where the code raises, is an ordinary month. An error that is no
-- HTTPException is answered 500, as a missing base score in api/app/recalc.py is, and no `except
-- HTTPException` takes it. A scoring table
-- of one level and one with branches are two constructors, where the code asks for the code "tm5". An
-- owner's id is read as a number, so its greatest length is not checked.
--
-- Not modelled: reports and other read-only routes, the sums of the staffing demand over the
-- pursuits, the dashboard layout, plan years, audit, presence, row-level security, HTTP and the
-- engine's own computation.
pub mod Prelude
pub mod Store
pub mod Scope
pub mod Dependency
pub mod Pwin
pub mod Scoring
pub mod Assess
pub mod Bhptw
pub mod Auth
pub mod Lifecycle
pub mod Sample
pub mod Questionnaire
pub mod Recalc
pub mod Escalation
pub mod EngineClient
pub mod Patch
pub mod Answers
pub mod Staffing
pub mod MarketSync
pub mod Users
pub mod Requests
