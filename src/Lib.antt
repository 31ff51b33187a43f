-- ===== src/Lib.antt =====
-- Verification library of an autonomous paper-trading agent whose rule is to fail closed: a Python
-- program in scripts/agent that opens a position only where every check says yes, and that can always
-- reduce one.
--
-- How the parts interact. The configuration (scripts/agent/config.py, gates.py, arming.py) is merged
-- so that an overlay only tightens it, and its run gates decide whether anything may be opened. The
-- market-state tier (market_state.py, market_state_cache.py) says whether an instrument is tradable
-- now. The risk tier reads the account (risk/account_state.py), trips on losses (risk/loss_limits.py),
-- asks of every opening candidate whether it fits the caps (risk/can_open.py, risk/exposure.py),
-- remembers a rejection under the day-trading rule (risk/pdt_compat.py), and latches a halt in a kill
-- switch (risk/risk_kill.py) that the rows of its journal (risk/risk_ledger.py) restore after a crash.
-- The journal itself (journal.py) is a file of hashed lines. The execution tier prices an opening
-- order (order_pricing.py), takes it through a ladder of checks (execution_preflight.py) and, if it
-- passes, issues a capability token; the broker's chokepoint (broker/base.py) places an order only
-- against a token for that very order. Reductions have tokens of their own, which the kill switch
-- (kill_switch.py) uses to flatten. What the broker reports of an order is parsed and turned into
-- increments (broker/order_state.py), a sale is assumed to owe fees (fees.py), and each order has the
-- fill that the quote or the book would have given it beside it (execution_realism.py).
--
-- Files, by folder, all paths of the program under scripts/agent:
--   Base       names passed on, lists, integers, decimals, Python's dict, sorted sets of codes
--   Config     config.py, gates.py, arming.py
--   Market     State is market_state.py, Cache is market_state_cache.py
--   Risk       Account is AccountStore of risk/account_state.py, Loss is risk/loss_limits.py
--              (Rehydrate its rows and the way back from them), Pdt is risk/pdt_compat.py,
--              Reasons is risk/reasons.py; Exposure is risk/exposure.py, Engine is can_open
--              (Stages its second phase, Ready what its first asks, Allowed what a yes means);
--              Ledger is risk/risk_ledger.py and Kill is risk/risk_kill.py (Failures the failures by
--              symbol, Pass what is recorded around a pass of the actuator, Latch trigger and
--              retry_residual, Rehydrate the way back from the rows,
--              Evaluates its test on losses)
--   Journal    journal.py: the stream, the writer and the replay; Reader the incremental reader
--   Exec       Order and Broker are broker/base.py; Token is the token half of
--              execution_preflight.py and Preflight its ladder (Inputs the records, Stages the
--              stages that collect, Ladder evaluate_preflight and mint_open_token); Reasons is
--              exec_reasons.py; Quote is quote_quality.py; Pricing is order_pricing.py; Fees is fees.py;
--              Realism is the modelled fill of execution_realism.py; Kill is kill_switch.py;
--              OrderState is broker/order_state.py with the watcher's cursor of orchestrator.py; World runs any sequence of mints and submissions
-- A definition has the name of the function that it models. Where a function has several stages, each
-- is a definition of its own, composed in the order of the code. The modules named Tests evaluate the
-- definitions on examples.
--
-- State and errors. A stateful object is a record that its operations take and return. An exception is
-- a value: `none`, or a constructor of a result type. A key that is only compared (symbols, identifiers,
-- dates) is a number.
--
-- Numbers. Money, prices and quantities are integers that count a smallest unit, named in the file
-- that uses them; Python computes on decimals of 28 digits, and the model is exact, so it speaks of
-- amounts whose products fit in 28 digits. Times are milliseconds and not negative; a comparison
-- `a - b > ttl` is written `b + ttl < a`. There is no fuel: every loop runs over a list.
--
-- Code that is not in the repository is a parameter: whether a text parses as a time in UTC, the
-- SHA-256 of a canonical text, the parse of a decimal and of a JSON text, the text of an exception,
-- Python's `str.lower`, and what a broker does with an order. Two properties of the journal assume
-- something of such code, and name it: that the JSON text of a row reads back, and that what the
-- system says of a file determines its lines. The canonical text of a row (serializer.py) is a
-- parameter too.
--
-- Not modelled: the choice of a ladder, the averages and the divergence of execution_realism.py,
-- intraday margin beyond the classification of a leg, the parse of the risk configuration and of the
-- account, the execution ledger and the paper book, the calendar, the strategies and the recorder. A
-- change of a file in the midst of an operation on the journal, which the code meets by a second try
-- and then JournalCorruption, is left out. Nor, since they are input and output: feeds, the network
-- client of the broker, secrets, reports and the dashboard.
pub mod Base
pub mod Config
pub mod Market
pub mod Risk
pub mod Exec
pub mod Journal
