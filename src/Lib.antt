-- ===== src/Lib.antt =====
-- The services of a dating platform: a Django project whose apps under apps/ each have tables
-- (models.py), the operations on them (services.py), what other apps may call (interface.py) and
-- what they do on events (signals.py).
--
-- Accounts models apps/accounts, Matches apps/matches, Likes apps/likes, Subscriptions
-- apps/subscriptions, Moderation apps/moderation, Reports apps/reports, Payments apps/payments,
-- Chat apps/chat, Authentication apps/authentication, Profiles apps/profiles and Matching
-- apps/matching. In each of them Models (or the parent, for Matches, and Payloads, Engine and
-- Service, for Matching) has the tables, a module for each group of services has their operations
-- under the functions' names, and the other modules have the proofs; Tests has runs at small
-- tables.
--
-- Common has what they share: Tests the Boolean tests and texts, Texts Python's operations on
-- texts, Dates and PyFloat its dates and floats, Table the queries and updates of Django's tables
-- as lists of rows, Calls the calls of a service, which return a value or raise an error of
-- apps/common/exceptions.py beside the state, and Keeps under it the rules for what a call leaves
-- true.
--
-- The apps call each other. A swipe (Likes) makes a match (Matches) within the limits of the plan
-- (Subscriptions). A report (Reports) lowers a trust score and queues a case (Moderation), and
-- suspends an account (Accounts). A message (Chat) asks Accounts, Reports, Moderation and
-- Subscriptions. A sign-in (Authentication) counts failures on the accounts and registers devices
-- there, a social sign-in makes accounts, and a ban ends sessions. A ranking (Matching) scores
-- the profiles and accounts of the members. Reports, Chat, Authentication and Matching hold the
-- tables of the services that they call in their own state, so that a call is the call of the
-- other model.
--
-- A table is a list of rows, the newest first, and a UUID is a number. Times are seconds and the
-- time of a call, the id of a new row and the text of a date are arguments, as are secrets and
-- codes that are drawn at random. Money is in cents, and what a discount leaves in
-- ten-thousandths of a cent, so that no rounding is needed; a coordinate is in millionths of a
-- degree; PostgreSQL's limits on columns are not modelled. A call under transaction.atomic that
-- raises leaves the state as it was. That holds in the model for the cached values too, which are
-- outside the transactions of the program.
--
-- Floats are the record Common.PyFloat.Floats of the operations that the engine uses, a
-- parameter: a theorem that needs more of them, an order or the rounding of a percentage, says so
-- in its hypotheses.
--
-- Loops over rows are structural recursion. There is fuel in two places. The decimal digits of a
-- number have one more than the number, which is enough. The search for a free username has its
-- fuel as an argument, and one turn more than there are accounts is enough while there are fewer
-- than ten billion of them.
--
-- The handlers of events run inside publish in the program; here a component keeps the list of
-- the events that it has published, and the handlers that are modelled are functions of their
-- own. For a block, Reports.Ties runs the handlers of likes, matches and reports in the order of
-- the installed apps, over the tables of the three; those of discovery and audit are not
-- modelled. For a ban, Authentication.Sessions.ban_member runs the handler that ends the
-- sessions; the other handlers of a ban are functions of their own.
--
-- Not modelled: the regular expressions of the screening, which are parameters with no assumption
-- on them, as are HMAC, the hashes of tokens and passwords, and the comparison of texts in the
-- database; Django's own ModelBackend, which is a parameter with its documented behaviour; the
-- payment providers, whose interface is a record of functions; mails, image files and the fan-out
-- of messages to browsers; templates, views, serializers and settings; and the apps that
-- PROJECT.json lists as not modelled.
pub mod Common
pub mod Accounts
pub mod Matches
pub mod Subscriptions
pub mod Likes
pub mod Moderation
pub mod Reports
pub mod Payments
pub mod Chat
pub mod Authentication
pub mod Profiles
pub mod Matching
