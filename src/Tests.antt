-- ===== src/Tests.antt =====
-- Runs of the model on small inputs.
mod Application
mod Archive
mod Deflated
mod ExportLists
mod Exports
mod Files
mod ImportLists
mod Numbers
mod Program
mod Conversion
mod Converted
mod Checking
mod Renaming
