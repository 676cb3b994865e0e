-- ===== src/Ui.antt =====
-- extension/src/ui and extension/src/popup: what the viewer sees and clicks on.
pub mod CategoryDisplay
pub mod MixerPanel
pub mod Popup
