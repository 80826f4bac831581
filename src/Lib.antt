-- ===== src/Lib.antt =====
-- A model of the maintenance and spare-parts management system (Python, Django): its services as
-- functions on the rows of their tables, and what they guarantee.
--
-- The program's core is a set of service classes. Each service reads rows, checks guards, and writes
-- several rows in one database transaction; an exception rolls all of them back. Views, signals and
-- other services call them. Here a table is the list of its rows in the order of their primary keys,
-- the tables of a component are one record, and a service is a function from that record and its
-- arguments to a `Result`: the tables afterwards, or the exception. A caller that goes on after an
-- exception goes on from the old tables. A history of calls is a list of them, run in order; the row
-- locks of the services (`select_for_update`) are what makes the calls of one table sequential.
--
-- Base: lists, signed integers, rows with keys (`get`, `save`, `insert_last`), texts, `Result`. The
-- queries and saves of Django's object mapper become these functions.
-- Stock (inventory/models.py, inventory/services.py, inventory/services_allocation.py): the parts,
-- stock rows, part lines and reservations; `reserve_stock`, `release_reservation`, `allocate_one`,
-- `reallocate_for_part`, `queue_position`, `compute_quantity_reserved`, `free_stock_for_part`.
-- Warehouse (inventory/services.py): what enters and leaves the stock, and the requests for parts. Moves
-- has `stock_in`, `consumable_use` and `issue_consumable`; Direct `issue_part_to_work_order`; Requests
-- `request_part_on_wo` with its emergency path; Approval the decisions of a manager, which test the object of the
-- line that the caller read and write onto the row (a call of a history is the read of a view and then the
-- service, and no other call comes between the two); Issue
-- `execute_warehouse_issue`; Shortage the states of a shortage report. Its record holds the tables of
-- Stock, Ledger and Blockers together: the services allocate through Stock, post to Ledger in the same
-- transaction, and fire events at Blockers in a `try` block that passes over every exception. Its services
-- are written with the shut operations of Base/Shut, so that Base/Keeps has one lemma for each form.
-- Tools (inventory/services_tools.py, inventory/models_tools.py): the reusable-tool pool; issue from
-- stock, checkout, return, damage report, repair, write-off. Its stock rows are those of Stock.
-- Blockers (maintenance/services_blocker.py, maintenance/services_wo_status.py, maintenance/signals.py):
-- the blockers of work orders, their events, and the operational status that follows from them. The
-- inventory and repair services call `sync_from_external_event` when their entities change.
-- Lifecycle (maintenance/services.py, maintenance/models.py): the stages of work orders. Service has
-- `transition_work_order` with the release of stale reservations and of dependent blockers, Technician
-- the submission, the waiting, the pause and `manager_close_work_order`, Start `technician_start_work`
-- and `pause_other_in_progress`, Archive `archive_work_order` and `restore_work_order`. The orders and
-- blockers are those of Blockers, the reservations those of Stock. The source goes on with the object of an
-- order that the caller read, and it is an argument here.
-- Preventive (maintenance/preventive_engine, maintenance/services.py): the schedules of preventive
-- maintenance. Scheduling has `next_due_at`, `generate_today` and `mark_overdue`, Occurrence the states of an
-- execution, Assignment its owner, Review the approval and the rejection of maintenance/services.py, which
-- close the order through Lifecycle, and the counts of `compute_compliance`. Calendar is the part of Python's
-- dates that they use: moments are of UTC, the settings' time zone is three hours ahead, and a due moment beyond the
-- year 9999 is an exception; a call has the time both as a calendar moment and as a number.
-- Procurement (procurement/views.py, procurement/services.py, procurement/models.py,
-- inventory/services.py): purchase orders and requests. Lines has what `purchase_order_receive` does for a
-- line, Receipt the whole view, Fulfil the issue of what has arrived to the work orders that wait
-- (`auto_fulfill_wo_lines_from_po`), Orders what closes, cancels and edits an order, Creation its creation
-- and `PurchaseOrderService.reorder`, Requests the requests that a shortage sets off, Shortages
-- `raise_shortage_request` and Decisions `create_shortage_decision` and `edit_shortage_decision`, which
-- make such requests. Its record is that of Warehouse with the orders and their lines. What a form holds,
-- the number of a new order and the setting PO_AUTO_ISSUE are arguments; an arrival that is too large is
-- scaled by exact fractions, where the source divides with 28 digits first. A redirect of a view with a
-- message is an exception here.
-- Assets (maintenance/models.py, maintenance/validators.py): the hierarchy of machines, on which issues, orders
-- and requests stand. Tree has the walks up the parents and `validate_component_belongs_to_machine`.
-- Ledger (maintenance/cost_ledger.py, maintenance/models.py): the journal of costs, to which the
-- inventory and repair services post, and its cache for each work order.
-- Health (maintenance/services_wo_health.py): the health card of a work order, from its blockers and
-- its cached costs.
-- Viability (maintenance/services_repair_viability.py): the recommendation to repair or replace a part,
-- with the ratio of costs as an exact fraction. The mean time between failures, a floating-point sum of times with
-- microseconds, is a parameter.
-- Accounts (accounts/models.py, accounts/capabilities.py): roles and the matrix of capabilities.
--
-- In each of the others Tables or Depot holds the rows, Service, Reservations, Status, Sync and Card the
-- operations, Steps the histories of calls, and the other modules the proofs; Tests has concrete data.
--
-- Numbers: a quantity is a whole number of thousandths, a unit cost of ten-thousandths, an amount of
-- hundredths, as the columns store them; the widths of the columns are not modelled. The amount of a
-- manual adjustment is taken in ten-thousandths before it is rounded. Times are numbers, users and
-- foreign keys primary keys. A new primary key is above all keys in its table. The loops of the source
-- run over a list or a counted range, but for the walks of Assets/Tree: these have fuel, of which the level of
-- the machine is enough in an ordered hierarchy.
--
-- Texts that the warehouse formats for display (the note of a movement, the memo of a cost, the label of a
-- blocker) are arguments, and the JSON reference of a movement is left out.
--
-- Not modelled: the other views, forms, templates, notifications, audit rows, translations, the legacy
-- recalculation of costs, the numbering of purchase orders, suppliers, the templates of preventive
-- maintenance, external repair requests, and the validation, escalation and archiving of issues, and the
-- asset codes of machines.
pub mod Base
pub mod Stock
pub mod Tools
pub mod Blockers
pub mod Accounts
pub mod Ledger
pub mod Health
pub mod Viability
pub mod Warehouse
pub mod Lifecycle
pub mod Preventive
pub mod Procurement
pub mod Assets
